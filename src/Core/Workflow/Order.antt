-- ===== src/Core/Workflow/Order.antt =====
-- `topological_order` of delta/core.py: what it returns, and how its loop ends.
use native.Mathlib.Nat.{le_refl}
use delta_agent.Core.Work.{Workflow}
use delta_agent.Core.Workflow.Members.{
  disjoint-member, length-keep_members-lt, member-keep_members, member-append,
}
use text.Mathlib.TextPositions.{eq_refl}
use delta_agent.Common.Result.{workflow_validation, Error, ok, err, Result}
use delta_agent.Common.Dict.{lookup, Dict}
use delta_agent.Common.{
  inr, eq_iff, str_eq, inl, Bool-cases, ◌⊎◌, refl, subst, suc, zero, ◌≤◌, ◌<◌, length, ℕ, arith,
  ◌∷◌, ◌||◌, [], true, not, ◌++◌, ◌≡◌, String, List,
}
use delta_agent.Core.Workflow.{
  member, keep_members, dependencies_of, is_ready, cycle, rounds, all_known, step_ids,
  topological_order, index_steps, extract_dependencies,
}

-- The steps `xs` come behind `seen`, each with all of its dependencies before it.
abbrev pub IsOrdered : Dict (List String) → List String → List String → Type 0
IsOrdered deps seen [] = Unit
IsOrdered deps seen (x ∷ xs) =
    ((d : String) → member d (dependencies_of deps x) ≡ true → member d seen ≡ true)
    × IsOrdered deps (x ∷ seen) xs

module _ (deps : Dict (List String)) where
  abbrev Rest : List String → List String → Type 0
  Rest seen ys =
      (x d : String)
      → member x ys ≡ true
      → member d (dependencies_of deps x) ≡ true
      → member d seen ≡ true

  batch-IsOrdered : (seen ys : List String) → Rest seen ys → IsOrdered deps seen ys
  unfolding member
  batch-IsOrdered seen [] h = tt
  batch-IsOrdered seen (y ∷ ys) h = (
    λ d m. h y d (ground (arith, eq_refl y)) m,
    batch-IsOrdered (y ∷ seen) ys (λ x d mx md. ground (arith, h x d (ground arith) md)),
  )

  append-IsOrdered :
      (seen xs ys : List String)
      → IsOrdered deps seen xs
      → ((x d : String)
          → member x ys ≡ true
          → member d (dependencies_of deps x) ≡ true
          → (member d xs || member d seen) ≡ true)
      → IsOrdered deps seen (xs ++ ys)
  unfolding member
  append-IsOrdered seen [] ys o h = batch-IsOrdered seen ys h
  append-IsOrdered seen (x ∷ xs) ys o h =
      (o.0, append-IsOrdered (x ∷ seen) xs ys o.1 (λ y d my md. ground (arith, h y d my md)))

module _ (ids : List String) (deps : Dict (List String)) where
  record Inv (order remaining : List String) : Type 0 where
    placed : (x : String) → member x order ≡ true → member x ids ≡ true
    covers : (x : String) → member x ids ≡ true → (member x order || member x remaining) ≡ true
    ordered : IsOrdered deps [] order

  -- The order holds exactly the given ids, each behind its dependencies.
  pub record IsOrderOf (order : List String) : Type 0 where
    pub same : (x : String) → member x order ≡ member x ids
    pub ordered : IsOrdered deps [] order

  abbrev Known : Type 0
  Known = (x d : String) → member d (dependencies_of deps x) ≡ true → member d ids ≡ true

  abbrev ready : List String → List String
  ready remaining = keep_members (is_ready deps remaining) ids

  abbrev left : List String → List String
  left remaining = keep_members (λ y. not (member y (ready remaining))) remaining

  Inv-round :
      (order remaining : List String)
      → Known
      → Inv order remaining
      → Inv (order ++ ready remaining) (left remaining)
  Inv-round order remaining known inv = record {
    placed = λ x m. from_order x m;
    covers = λ x m. ground (
      arith,
      member-append x order (ready remaining),
      member-keep_members (λ y. not (member y (ready remaining))) x remaining,
      inv.covers x m,
    );
    ordered =
        append-IsOrdered deps [] order (ready remaining) inv.ordered
          (λ x d mx md. deps_before x d mx md);
  }
    where
      from_order : (x : String) → member x (order ++ ready remaining) ≡ true → member x ids ≡ true
      from_order x m = ground (
        arith,
        member-append x order (ready remaining),
        member-keep_members (is_ready deps remaining) x ids,
        inv.placed x,
      )

      is_ready_of :
          (x : String) → member x (ready remaining) ≡ true → is_ready deps remaining x ≡ true
      is_ready_of x m = ground (arith, member-keep_members (is_ready deps remaining) x ids)

      deps_before :
          (x d : String)
          → member x (ready remaining) ≡ true
          → member d (dependencies_of deps x) ≡ true
          → (member d order || member d []) ≡ true
      deps_before x d mx md =
          let r = is_ready_of x mx in
          ground (
            arith,
            disjoint-member (dependencies_of deps x) remaining d,
            inv.covers d (known x d md),
          )

  finished-IsOrderOf : (order : List String) → Inv order [] → IsOrderOf order
  unfolding member
  finished-IsOrderOf order inv = record {
    same = λ x. ground (arith, inv.placed x, inv.covers x);
    ordered = inv.ordered;
  }

  -- A round takes a step away, so the fuel lasts.
  left-lt :
      (remaining : List String) (x : String) (xs : List String)
      → ready remaining ≡ x ∷ xs
      → length (left remaining) < length remaining
  unfolding member
  left-lt remaining x xs e =
      length-keep_members-lt (λ y. not (member y (ready remaining))) x remaining
        (ground (arith, first, member-keep_members (is_ready deps remaining) x ids)) (rw first)
    where
      first : member x (ready remaining) ≡ true
      first = rw e (rw (eq_refl x))

  abbrev Outcome : Result (List String) → Type 0
  Outcome (ok order) = IsOrderOf order
  Outcome (err e) = e ≡ cycle

  rounds-Outcome :
      (fuel : ℕ) (order remaining : List String)
      → Known
      → length remaining ≤ fuel
      → Inv order remaining
      → Outcome (rounds fuel ids deps order remaining)
  unfolding rounds
  rounds-Outcome fuel order [] known h inv = finished-IsOrderOf order inv
  rounds-Outcome zero order (r ∷ rs) known h inv = absurd (omega arith)
  rounds-Outcome (suc fuel) order (r ∷ rs) known h inv =
      go (ready (r ∷ rs)) refl (rounds-Outcome fuel)
    where
      go :
          (now : List String)
          → ready (r ∷ rs) ≡ now
          → ((order remaining : List String)
              → Known
              → length remaining ≤ fuel
              → Inv order remaining
              → Outcome (rounds fuel ids deps order remaining))
          → Outcome (elim now [
            | [] ↦ err cycle
            | x ∷ xs ↦
                rounds fuel ids deps
                  (order ++ x ∷ xs)
                  (keep_members (λ y. not (member y (x ∷ xs))) (r ∷ rs))
          ])
      go [] e rec = refl
      go (x ∷ xs) e rec =
          let shorter = left-lt (r ∷ rs) x xs e in
          let next = Inv-round order (r ∷ rs) known inv in
          subst
            (λ now. Outcome (
              rounds fuel ids deps (order ++ now)
                (keep_members (λ y. not (member y now)) (r ∷ rs))))
            e (rec _ _ known (omega arith) next)

  start-Inv : Inv [] ids
  unfolding member
  start-Inv = record { placed = λ x m. cc; covers = λ x m. m; ordered = tt }

-- Every dependency that a step declares is known, where `all_known` holds.
all_known-Known :
    (ids : List String) (deps : Dict (List String))
    → all_known ids deps ≡ true
    → (x d : String) → member d (dependencies_of deps x) ≡ true
    → member d ids ≡ true
unfolding all_known member lookup
all_known-Known ids [] h x d m = cc
all_known-Known ids ((y, []) ∷ deps) h x d m = ground (arith, all_known-Known ids deps h x d)
all_known-Known ids ((y, e ∷ es) ∷ deps) h x d m = elim (Bool-cases (str_eq e d)) [
  | inl same ↦ rw (← (eq_iff e d).0 same) (ground arith)
  | inr other ↦ all_known-Known ids ((y, es) ∷ deps) (ground arith) x d (ground arith)
]

abbrev pub unknown_dependency : Error
unknown_dependency = workflow_validation "dependency references an unknown step"

abbrev pub declared : Workflow → Dict (List String)
declared w = index_steps extract_dependencies [] w.steps

-- What `topological_order` promises of its result.
abbrev pub Ordering : Workflow → Result (List String) → Type 0
Ordering w (ok order) = IsOrderOf (step_ids w) (declared w) order
Ordering w (err e) = (e ≡ cycle) ⊎ (e ≡ unknown_dependency)

weaken :
    (w : Workflow) (r : Result (List String)) → Outcome (step_ids w) (declared w) r → Ordering w r
weaken w (ok order) o = o
weaken w (err e) o = inl o

-- `topological_order` answers an order of exactly the declared steps, in which each step stands
-- behind all of its dependencies; or it refuses a cycle or an unknown dependency, and fails in no
-- other way: the loop ends.
pub topological_order-Ordering : (w : Workflow) → Ordering w (topological_order w)
unfolding topological_order
topological_order-Ordering w = elim (Bool-cases (all_known (step_ids w) (declared w))) [
  | inl known ↦ rw known (
      weaken w _ (
        rounds-Outcome (step_ids w) (declared w) (length (step_ids w)) [] (step_ids w)
          (all_known-Known (step_ids w) (declared w) known) (le_refl _)
          (start-Inv (step_ids w) (declared w))))
  | inr unknown ↦ rw unknown (inr refl)
]
