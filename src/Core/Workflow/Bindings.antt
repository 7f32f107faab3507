-- ===== src/Core/Workflow/Bindings.antt =====
-- What `resolve_step_input` of delta/core.py reads.
use delta_agent.Common.Result.{◌>>=◌, >>=-eq-ok, Result, ok}
use delta_agent.Core.Work.{Step}
use delta_agent.Core.Value.{
  Value, Values, Entries, input_ref, step_ref, dict, list, nil, cons, end, entry,
}
use delta_agent.Common.{◌∷◌, [], none, some, ap, refl, Option, String, ◌≡◌, ◌++◌, All, List}
use delta_agent.Common.Dict.{lookup, Dict}
use delta_agent.Core.Platform.{normalize, Platform}
use delta_agent.Core.Workflow.{
  walk_entries, resolve_items, walk_items, resolve_entries, Reference, to_input, to_step,
  walk_bindings, references, resolve, resolve_step_input, available_or,
}

pub All-append_left {ℓ κ} :
    {A : Type ℓ} (P : A → Type κ) (xs ys : List A) → All P (xs ++ ys) → All P xs
All-append_left P [] ys h = tt
All-append_left P (x ∷ xs) ys h = (h.0, All-append_left P xs ys h.1)

pub All-append_right {ℓ κ} :
    {A : Type ℓ} (P : A → Type κ) (xs ys : List A) → All P (xs ++ ys) → All P ys
All-append_right P [] ys h = h
All-append_right P (x ∷ xs) ys h = All-append_right P xs ys h.1

All-append {ℓ κ} :
    {A : Type ℓ} (P : A → Type κ) (xs ys : List A) → All P xs → All P ys → All P (xs ++ ys)
All-append P [] ys h k = k
All-append P (x ∷ xs) ys h k = (h.0, All-append P xs ys h.1 k)

module _ (platform : Platform) (inputs outputs : Dict Value) where
  -- The value that a reference asks for is there.
  abbrev pub IsProvided : Reference → Type 0
  IsProvided (to_input x) = (v : Value) × (lookup x inputs ≡ some v)
  IsProvided (to_step x) = (v : Value) × (lookup x outputs ≡ some v)

  provided_of :
      (m : String) (o : Option Value) (w : Value)
      → available_or m o ≡ ok w
      → (v : Value) × (o ≡ some v)
  provided_of m none w h = cc
  provided_of m (some v) w h = (v, refl)

  mutual
    unfolding resolve walk_bindings

    resolve-IsProvided :
        (v w : Value) → resolve platform inputs outputs v ≡ ok w → All IsProvided (walk_bindings v)
    resolve-IsProvided (input_ref x) w h = (provided_of _ (lookup x inputs) w h, tt)
    resolve-IsProvided (step_ref x) w h = (provided_of _ (lookup x outputs) w h, tt)
    resolve-IsProvided (dict es) w h =
        let (fs, hf, rest) = >>=-eq-ok (resolve_entries platform inputs outputs es) _ h in
        resolve_entries-IsProvided es fs hf
    resolve-IsProvided (list vs) w h =
        let (ws, hw, rest) = >>=-eq-ok (resolve_items platform inputs outputs vs) _ h in
        resolve_items-IsProvided vs ws hw
    resolve-IsProvided v w h = tt

    resolve_items-IsProvided :
        (vs ws : Values)
        → resolve_items platform inputs outputs vs ≡ ok ws
        → All IsProvided (walk_items vs)
    resolve_items-IsProvided nil ws h = tt
    resolve_items-IsProvided (cons v vs) ws h =
        let (w, hw, h1) = >>=-eq-ok (resolve platform inputs outputs v) _ h in
        let (us, hu, h2) = >>=-eq-ok (resolve_items platform inputs outputs vs) _ h1 in
        All-append IsProvided (walk_bindings v) (walk_items vs) (resolve-IsProvided v w hw)
          (resolve_items-IsProvided vs us hu)

    resolve_entries-IsProvided :
        (es fs : Entries)
        → resolve_entries platform inputs outputs es ≡ ok fs
        → All IsProvided (walk_entries es)
    resolve_entries-IsProvided end fs h = tt
    resolve_entries-IsProvided (entry k v es) fs h =
        let (w, hw, h1) = >>=-eq-ok (resolve platform inputs outputs v) _ h in
        let (us, hu, h2) = >>=-eq-ok (resolve_entries platform inputs outputs es) _ h1 in
        All-append IsProvided (walk_bindings v) (walk_entries es) (resolve-IsProvided v w hw)
          (resolve_entries-IsProvided es us hu)

  -- Where the effective input of a step is known, every reference that the step declares has a value.
  pub resolve_step_input-IsProvided :
      (step : Step) (w : Value)
      → resolve_step_input platform inputs outputs step ≡ ok w
      → All IsProvided (references step)
  unfolding resolve_step_input
  resolve_step_input-IsProvided step w h =
      let (v, hv, rest) = >>=-eq-ok (resolve platform inputs outputs (dict step.bind)) _ h in
      resolve-IsProvided (dict step.bind) v hv

-- Equal parts give equal wholes.
both {ℓ κ μ} :
    {A : Type ℓ} {B : Type κ} {C : Type μ} (f : A → B → C) {p q : Result A} {r s : Result B}
    → p ≡ q
    → r ≡ s
    → (p >>= λ a. r >>= λ b. ok (f a b)) ≡ (q >>= λ a. s >>= λ b. ok (f a b))
both f e g = rw (e, g) refl

-- Two environments give a reference the same value, or both none.
module _ (inputs outputs more_inputs more_outputs : Dict Value) where
  abbrev pub Agrees : Reference → Type 0
  Agrees (to_input x) = lookup x inputs ≡ lookup x more_inputs
  Agrees (to_step x) = lookup x outputs ≡ lookup x more_outputs

  module _ (platform : Platform) where
    mutual
      unfolding resolve walk_bindings

      resolve_local :
          (v : Value)
          → All Agrees (walk_bindings v)
          → resolve platform inputs outputs v ≡ resolve platform more_inputs more_outputs v
      resolve_local (input_ref x) h = ap (available_or _) h.0
      resolve_local (step_ref x) h = ap (available_or _) h.0
      resolve_local (dict es) h =
          ap (λ (r : Result Entries). r >>= λ fs. ok (dict fs)) (resolve_entries_local es h)
      resolve_local (list vs) h =
          ap (λ (r : Result Values). r >>= λ ws. ok (list ws)) (resolve_items_local vs h)
      resolve_local v h = refl

      resolve_items_local :
          (vs : Values)
          → All Agrees (walk_items vs)
          → resolve_items platform inputs outputs vs
            ≡ resolve_items platform more_inputs more_outputs vs
      resolve_items_local nil h = refl
      resolve_items_local (cons v vs) h =
          let e = resolve_local v (All-append_left Agrees (walk_bindings v) (walk_items vs) h) in
          let f =
            resolve_items_local vs (All-append_right Agrees (walk_bindings v) (walk_items vs) h) in
          both (λ w ws. cons w ws) e f

      resolve_entries_local :
          (es : Entries)
          → All Agrees (walk_entries es)
          → resolve_entries platform inputs outputs es
            ≡ resolve_entries platform more_inputs more_outputs es
      resolve_entries_local end h = refl
      resolve_entries_local (entry k v es) h =
          let e = resolve_local v (All-append_left Agrees (walk_bindings v) (walk_entries es) h) in
          let f =
            resolve_entries_local es
              (All-append_right Agrees (walk_bindings v) (walk_entries es) h) in
          both (λ w fs. entry k w fs) e f

-- The effective input of a step depends only on the references that the step declares: two
-- environments that agree on those give the same input, or the same error.
pub resolve_step_input_local :
    (platform : Platform) (inputs outputs more_inputs more_outputs : Dict Value) (step : Step)
    → All (Agrees inputs outputs more_inputs more_outputs) (references step)
    → resolve_step_input platform inputs outputs step
      ≡ resolve_step_input platform more_inputs more_outputs step
unfolding resolve_step_input
resolve_step_input_local platform inputs outputs more_inputs more_outputs step h =
    ap (λ (r : Result Value). r >>= normalize platform)
      (resolve_local inputs outputs more_inputs more_outputs platform (dict step.bind) h)
