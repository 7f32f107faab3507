-- ===== src/Core/Workflow.antt =====
-- delta/core.py: dependencies, `validate_workflow`, `topological_order` and `resolve_step_input`.
pub mod Members
pub mod Indexed
pub mod Order
pub mod Bindings
pub mod Complete
use delta_agent.Common.{
  ℕ, zero, suc, String, Bool, true, false, not, ◌&&◌, ◌||◌, Option, none, some, List, [], ◌∷◌, ◌++◌,
  map, length, str_eq, if◌then◌else◌,
}
use delta_agent.Common.Result.{
  Result, ok, err, Error, workflow_validation, dependency_pending, key_error, out_of_fuel, ◌>>=◌,
  ◌>>◌, require, refuse,
}
use delta_agent.Common.Text.{◌⧺◌}
use delta_agent.Common.Dict.{Dict, lookup, insert}
use delta_agent.Core.Value
use delta_agent.Core.Value.{
  Value, Values, Entries, Key, null, bool, int, float, str, date, datetime, list, dict, input_ref,
  step_ref, opaque, nil, cons, end, entry,
}
use delta_agent.Core.Platform.{Platform, normalize, signature}
use delta_agent.Core.Schema.{Scope, InputSpec}
use delta_agent.Core.Work.{Step, Workflow}

-- x in xs
unfoldable pub member : String → List String → Bool
member x [] = false
member x (y ∷ ys) = str_eq y x || member x ys

pub data Reference : Type 0 where
  to_input to_step : String → Reference

unfoldable mutual
  pub walk_bindings : Value → List Reference
  walk_bindings (input_ref x) = to_input x ∷ []
  walk_bindings (step_ref x) = to_step x ∷ []
  walk_bindings (dict es) = walk_entries es
  walk_bindings (list vs) = walk_items vs
  walk_bindings _ = []

  pub walk_items : Values → List Reference
  walk_items nil = []
  walk_items (cons v vs) = walk_bindings v ++ walk_items vs

  pub walk_entries : Entries → List Reference
  walk_entries end = []
  walk_entries (entry k v es) = walk_bindings v ++ walk_entries es

-- The references of `_walk_bindings(step.bind)`.
abbrev pub references : Step → List Reference
references step = walk_bindings (dict step.bind)

-- `seen` is the reversed list of what has been found: the set and the list of the loop in one.
unfoldable pub collect : List String → List Reference → List String
collect found [] = found
collect found (to_input x ∷ rs) = collect found rs
collect found (to_step x ∷ rs) = collect (if member x found then found else found ++ x ∷ []) rs

unfoldable pub extract_dependencies : Step → List String
extract_dependencies step = collect [] (references step)

-- {step.id: f(step) for step in steps}: the last step of an id counts
unfoldable pub index_steps {ℓ} : {V : Type ℓ} → (Step → V) → Dict V → List Step → Dict V
index_steps f d [] = d
index_steps f d (s ∷ ss) = index_steps f (insert s.id (f s) d) ss

-- d[k]
abbrev pub at_key {ℓ} : {V : Type ℓ} → Option V → String → Result V
at_key none k = err (key_error k)
at_key (some v) k = ok v

unfoldable pub keep_members : (String → Bool) → List String → List String
keep_members p [] = []
keep_members p (x ∷ xs) = let rest = keep_members p xs in if p x then x ∷ rest else rest

-- deps & remaining is empty
unfoldable pub disjoint : List String → List String → Bool
disjoint [] remaining = true
disjoint (d ∷ ds) remaining = not (member d remaining) && disjoint ds remaining

abbrev pub dependencies_of : Dict (List String) → String → List String
dependencies_of deps x = elim (lookup x deps) [ none ↦ [] | some ds ↦ ds ]

abbrev pub is_ready : Dict (List String) → List String → String → Bool
is_ready deps remaining x = member x remaining && disjoint (dependencies_of deps x) remaining

abbrev pub cycle : Error
cycle = workflow_validation "workflow contains a dependency cycle"

-- The `while remaining` loop. The set `remaining` is a list of its members; a round takes away at
-- least one, so the number of steps is enough fuel.
unfoldable pub rounds :
    ℕ → List String → Dict (List String) → List String → List String → Result (List String)
rounds fuel ids deps order [] = ok order
rounds zero ids deps order (r ∷ rs) = err out_of_fuel
rounds (suc fuel) ids deps order (r ∷ rs) =
    let remaining = r ∷ rs in
    let ready = keep_members (is_ready deps remaining) ids in
    elim ready [
      | [] ↦ err cycle
      | x ∷ xs ↦
          rounds fuel ids deps (order ++ x ∷ xs)
            (keep_members (λ y. not (member y (x ∷ xs))) remaining)
    ]

abbrev pub step_ids : Workflow → List String
step_ids w = map (λ s. s.id) w.steps

-- any(dep not in by_id for deps in dependencies.values() for dep in deps)
unfoldable pub all_known : List String → Dict (List String) → Bool
all_known ids [] = true
all_known ids ((x, []) ∷ deps) = all_known ids deps
all_known ids ((x, d ∷ ds) ∷ deps) = member d ids && all_known ids ((x, ds) ∷ deps)

unfoldable pub topological_order : Workflow → Result (List String)
topological_order w = do
  let ids = step_ids w
  let deps = index_steps extract_dependencies [] w.steps
  require (all_known ids deps) (workflow_validation "dependency references an unknown step")
  rounds (length ids) ids deps [] ids

-- len(step_ids) == len(set(step_ids))
unfoldable pub all_unique : List String → Bool
all_unique [] = true
all_unique (x ∷ xs) = not (member x xs) && all_unique xs

-- k in d
abbrev pub has_key {ℓ} : {V : Type ℓ} → String → Dict V → Bool
has_key k d = elim (lookup k d) [ none ↦ false | some v ↦ true ]

abbrev pub check_reference : Workflow → Step → Reference → Result (Unit {0})
check_reference w step (to_input x) =
    require (has_key x w.inputs)
      (workflow_validation ("step " ⧺ step.id ⧺ " references unknown workflow input " ⧺ x))
check_reference w step (to_step x) = do
  require (member x (step_ids w))
      (workflow_validation ("step " ⧺ step.id ⧺ " references unknown step " ⧺ x))
  refuse (str_eq x step.id) (workflow_validation ("step " ⧺ step.id ⧺ " cannot depend on itself"))

unfoldable pub check_references : Workflow → Step → List Reference → Result (Unit {0})
check_references w step [] = ok tt
check_references w step (r ∷ rs) = check_reference w step r >> check_references w step rs

unfoldable pub check_steps : Workflow → List Step → Result (Unit {0})
check_steps w [] = ok tt
check_steps w (s ∷ ss) = check_references w s (references s) >> check_steps w ss

abbrev pub is_nil {ℓ} : {A : Type ℓ} → List A → Bool
is_nil [] = true
is_nil (x ∷ xs) = false

unfoldable pub validate_workflow : Workflow → Result (Unit {0})
validate_workflow w = do
  refuse (is_nil w.steps) (workflow_validation "workflow must contain at least one step")
  require (all_unique (step_ids w)) (workflow_validation "step IDs must be unique")
  check_steps w w.steps
  order ← topological_order w
  ok tt

-- A binding that waits for `available[x]`.
abbrev pub available_or : String → Option Value → Result Value
available_or message none = err (dependency_pending message)
available_or message (some v) = ok v

module _ (platform : Platform) (inputs outputs : Dict Value) where
  unfoldable mutual
    -- The local function `resolve`.
    pub resolve : Value → Result Value
    resolve (input_ref x) =
        available_or ("workflow input " ⧺ x ⧺ " is unavailable") (lookup x inputs)
    resolve (step_ref x) = available_or ("step output " ⧺ x ⧺ " is unavailable") (lookup x outputs)
    resolve (dict es) = do fs ← resolve_entries es; ok (dict fs)
    resolve (list vs) = do ws ← resolve_items vs; ok (list ws)
    resolve v = normalize platform v

    pub resolve_items : Values → Result Values
    resolve_items nil = ok nil
    resolve_items (cons v vs) = do w ← resolve v; ws ← resolve_items vs; ok (cons w ws)

    pub resolve_entries : Entries → Result Entries
    resolve_entries end = ok end
    resolve_entries (entry k v es) = do w ← resolve v; fs ← resolve_entries es; ok (entry k w fs)

  unfoldable pub resolve_step_input : Step → Result Value
  resolve_step_input step = do v ← resolve (dict step.bind); normalize platform v

module _ (platform : Platform) where
  unfoldable pub input_signature : Scope → Workflow → Step → Value → Result String
  input_signature scope workflow step effective_input =
      signature platform
        (Value.object (
          ("tenant_id", str scope.tenant_id)
          ∷ ("project_id", str scope.project_id)
          ∷ ("workflow_id", str workflow.id)
          ∷ ("workflow_version", str workflow.version)
          ∷ ("step_id", str step.id)
          ∷ ("implementation_id", str step.implementation_id)
          ∷ ("effective_input", effective_input)
          ∷ []))
        "input"
