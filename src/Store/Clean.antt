-- ===== src/Store/Clean.antt =====
-- delta/store.py: what `_reject_untrusted_bodies` refuses.
use delta_agent.Common.Result.{◌>>◌, out_of_fuel, err, ok, Result}
use delta_agent.Core.Platform.{Platform}
use delta_agent.Core.Value.{nil, cons, end, entry, list, Entries, Values, dict, Value}
use delta_agent.Store.Bodies.{
  body_refused, reject_untrusted_bodies, reject_loop, forbidden, has_key, present_in, items_weight,
  present, values_weight, push_values, weight, push_items,
}
use delta_agent.Common.{
  zero, ◌≢◌, Bool, suc, String, ◌+◌, [], ◌↔◌, All, ◌∷◌, ◌≤◌, ℕ, List, ◌≡◌, refl, true, false, arith,
}

-- The keys that name an output body.
abbrev pub body_keys : List String
body_keys = "output" ∷ "deliverable" ∷ "artifact_bytes" ∷ "content" ∷ "body" ∷ []

-- No object in a value, however deep, has a key that names an output body.
unfoldable mutual
  pub IsClean : Value → Type 0
  IsClean (dict es) = All (λ k. has_key k es ≡ false) body_keys × AreCleanValues es
  IsClean (list vs) = AreClean vs
  IsClean v = Unit

  pub AreClean : Values → Type 0
  AreClean nil = Unit
  AreClean (cons v vs) = IsClean v × AreClean vs

  pub AreCleanValues : Entries → Type 0
  AreCleanValues end = Unit
  AreCleanValues (entry k v es) = IsClean v × AreCleanValues es

unfoldable stack_weight : List Value → ℕ
stack_weight [] = 0
stack_weight (v ∷ stack) = weight v + stack_weight stack

weight-positive : (v : Value) → 1 ≤ weight v
unfolding weight
weight-positive (list vs) = omega arith
weight-positive (dict es) = omega arith
weight-positive v = omega arith

push_items-weight :
    (vs : Values) (stack : List Value)
    → stack_weight (push_items vs stack) ≡ items_weight vs + stack_weight stack
unfolding push_items weight stack_weight
push_items-weight nil stack = omega arith
push_items-weight (cons v vs) stack = omega (arith, push_items-weight vs (v ∷ stack))

push_values-weight :
    (es : Entries) (stack : List Value)
    → stack_weight (push_values es stack) ≡ values_weight es + stack_weight stack
unfolding push_values weight stack_weight
push_values-weight end stack = omega arith
push_values-weight (entry k v es) stack = omega (arith, push_values-weight es (v ∷ stack))

push_items-AreClean :
    (vs : Values) (stack : List Value)
    → All IsClean (push_items vs stack) ↔ (AreClean vs × All IsClean stack)
unfolding push_items IsClean
push_items-AreClean nil stack = (λ h. (tt, h), λ h. h.1)
push_items-AreClean (cons v vs) stack =
    let rest = push_items-AreClean vs (v ∷ stack) in
    (λ h. let r = rest.0 h in ((r.1.0, r.0), r.1.1), λ h. rest.1 (h.0.1, (h.0.0, h.1)))

push_values-AreCleanValues :
    (es : Entries) (stack : List Value)
    → All IsClean (push_values es stack) ↔ (AreCleanValues es × All IsClean stack)
unfolding push_values IsClean
push_values-AreCleanValues end stack = (λ h. (tt, h), λ h. h.1)
push_values-AreCleanValues (entry k v es) stack =
    let rest = push_values-AreCleanValues es (v ∷ stack) in
    (λ h. let r = rest.0 h in ((r.1.0, r.0), r.1.1), λ h. rest.1 (h.0.1, (h.0.0, h.1)))

present_in-none_iff :
    (ks : List String) (es : Entries) → (present_in ks es ≡ []) ↔ All (λ k. has_key k es ≡ false) ks
unfolding present_in
present_in-none_iff [] es = (λ h. tt, λ h. refl)
present_in-none_iff (k ∷ ks) es = found (has_key k es) refl (present_in-none_iff ks es)
  where
    found :
        (b : Bool)
        → has_key k es ≡ b
        → (present_in ks es ≡ []) ↔ All (λ k. has_key k es ≡ false) ks
        → (present_in (k ∷ ks) es ≡ []) ↔ All (λ k. has_key k es ≡ false) (k ∷ ks)
    found true e rest = (λ h. cc (rw e at h), λ h. cc (e, h.0))
    found false e rest = (λ h. (e, rest.0 (rw e at h)), λ h. rw e (rest.1 h.1))

module _ (platform : Platform) where
  body_refused-ok : (names : List String) → (body_refused platform names ≡ ok tt) ↔ (names ≡ [])
  body_refused-ok [] = (λ h. refl, λ h. refl)
  body_refused-ok (k ∷ ks) = (λ h. cc, λ h. cc)

  -- The loop returns exactly where the stack is clean, and does not run out of fuel.
  abbrev Decides : Result (Unit {0}) → List Value → Type 0
  Decides r stack = ((r ≡ ok tt) ↔ All IsClean stack) × (r ≢ err out_of_fuel)

  refused-Decides :
      (es : Entries) (stack : List Value) (r : Result (Unit {0}))
      → Decides r (push_values es stack)
      → Decides (body_refused platform (present es) >> r) (dict es ∷ stack)
  unfolding IsClean
  refused-Decides es stack r rest = judged (present es) refl
    where
      judged :
          (names : List String)
          → present es ≡ names
          → Decides (body_refused platform names >> r) (dict es ∷ stack)
      judged [] e =
          let clean = (present_in-none_iff forbidden es).0 e in
          (
            (
              λ h.
                  let c = (push_values-AreCleanValues es stack).0 (rest.0.0 h) in
                  ((clean, c.0), c.1),
              λ h. rest.0.1 ((push_values-AreCleanValues es stack).1 (h.0.1, h.1)),
            ),
            rest.1,
          )
      judged (k ∷ ks) e =
          ((λ h. cc, λ h. let z = (present_in-none_iff forbidden es).1 h.0.0 in cc (z, e)), λ h. cc)

  reject_loop-Decides :
      (fuel : ℕ) (stack : List Value)
      → stack_weight stack ≤ fuel
      → Decides (reject_loop platform fuel stack) stack
  unfolding reject_loop stack_weight weight IsClean
  reject_loop-Decides fuel [] enough = ((λ h. tt, λ h. refl), λ h. cc)
  reject_loop-Decides zero (v ∷ stack) enough =
      let p = weight-positive v in let absurd : ⊥ = omega arith in elim absurd [ ]
  reject_loop-Decides (suc n) (dict es ∷ stack) enough =
      refused-Decides es stack (reject_loop platform n (push_values es stack))
        (reject_loop-Decides n (push_values es stack) (omega (arith, push_values-weight es stack)))
  reject_loop-Decides (suc n) (list vs ∷ stack) enough =
      let rest =
        reject_loop-Decides n (push_items vs stack) (omega (arith, push_items-weight vs stack)) in
      let clean = push_items-AreClean vs stack in
      ((λ h. clean.0 (rest.0.0 h), λ h. rest.0.1 (clean.1 h)), rest.1)
  reject_loop-Decides (suc n) (v ∷ stack) enough =
      let rest = reject_loop-Decides n stack (omega (arith, weight-positive v)) in
      ((λ h. (tt, rest.0.0 h), λ h. rest.0.1 h.1), rest.1)

  -- The loop over the items of a record ends, and refuses exactly the items in which some object,
  -- however deep, has one of the five keys that name an output body.
  pub reject_untrusted_bodies-IsClean_iff :
      (items : Value)
      → ((reject_untrusted_bodies platform items ≡ ok tt) ↔ IsClean items)
        × (reject_untrusted_bodies platform items ≢ err out_of_fuel)
  unfolding reject_untrusted_bodies stack_weight
  reject_untrusted_bodies-IsClean_iff items =
      let r = reject_loop-Decides (weight items) (items ∷ []) (omega arith) in
      ((λ h. (r.0.0 h).0, λ h. r.0.1 (h, tt)), r.1)
