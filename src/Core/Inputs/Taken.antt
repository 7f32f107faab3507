-- ===== src/Core/Inputs/Taken.antt =====
-- What `validate_inputs` of delta/core.py has made sure of.
use text.Mathlib.TextPositions.{eq_refl}
use mathlib.Core.Option.{some-injective}
use delta_agent.Common.{
  String, false, Option, none, some, [], ◌∷◌, ◌≡◌, refl, sym, ◌∙◌, ap, subst, All, Bool-cases, inl,
  inr, eq_iff, str_eq,
}
use delta_agent.Common.Result.{ok, require, refuse, >>=-eq-ok, ok-injective, refuse-eq-ok}
use delta_agent.Common.Dict.{Dict, lookup, insert, lookup-insert}
use delta_agent.Core.Value.{Value}
use delta_agent.Core.Platform.{Platform, normalize}
use delta_agent.Core.Schema.{InputSpec}
use delta_agent.Core.Work.{Workflow}
use delta_agent.Core.Inputs.{check_kind, take_input, take_inputs, validate_inputs, unknown_names}
use delta_agent.Core.Workflow.{is_nil}

module _ (platform : Platform) (supplied : Dict Value) where
  -- A value that was supplied under the name, in JSON form.
  abbrev IsSourced : String → Value → Type 0
  IsSourced k v =
      (given : Value) × (lookup k supplied ≡ some given) × (normalize platform given ≡ ok v)

  abbrev AllSourced : Dict Value → Type 0
  AllSourced d = (k : String) (v : Value) → lookup k d ≡ some v → IsSourced k v

  insert-AllSourced :
      (name : String) (w : Value) (d : Dict Value)
      → IsSourced name w
      → AllSourced d
      → AllSourced (insert name w d)
  insert-AllSourced name w d h all k v e = elim (Bool-cases (str_eq name k)) [
    | inl same ↦
        let f : some w ≡ some v = rw same at (sym (lookup-insert name k w d) ∙ e) in
        subst (λ j. IsSourced j v) ((eq_iff name k).0 same)
          (subst (IsSourced name) (some-injective w v f) h)
    | inr other ↦ all k v (rw other at (sym (lookup-insert name k w d) ∙ e))
  ]

  insert-keeps :
      (name k : String) (w v : Value) (d : Dict Value)
      → lookup k d ≡ some v
      → (u : Value) × (lookup k (insert name w d) ≡ some u)
  insert-keeps name k w v d e = elim (Bool-cases (str_eq name k)) [
    | inl same ↦ (w, lookup-insert name k w d ∙ rw same refl)
    | inr other ↦ (v, lookup-insert name k w d ∙ rw other e)
  ]

  -- What one declared input has led to, where the inputs that were taken are `d`.
  abbrev pub TakenAs : Dict Value → String → InputSpec → Option Value → Type 0
  TakenAs d name spec none = spec.required ≡ false
  TakenAs d name spec (some given) =
      (v : Value) × (normalize platform given ≡ ok v)
      × (check_kind platform spec.kind name v ≡ ok tt)
      × (lookup name d ≡ some v)

  abbrev pub IsTaken : Dict Value → String × InputSpec → Type 0
  IsTaken d (name, spec) = TakenAs d name spec (lookup name supplied)

  abbrev Keeps : Dict Value → Dict Value → Type 0
  Keeps d e = (k : String) (v : Value) → lookup k d ≡ some v → (u : Value) × (lookup k e ≡ some u)

  take_input-step :
      (name : String) (spec : InputSpec) (o : Option Value) (d e : Dict Value)
      → lookup name supplied ≡ o
      → AllSourced d
      → take_input platform name spec o d ≡ ok e
      → AllSourced e × Keeps d e × TakenAs e name spec o
  take_input-step name spec none d e s all h =
      let (u, optional, rest) = >>=-eq-ok (refuse spec.required _) _ h in
      let same : d ≡ e = ok-injective rest in
      (
        subst AllSourced same all,
        subst (Keeps d) same (λ k v p. (v, p)),
        refuse-eq-ok spec.required _ optional,
      )
  take_input-step name spec (some given) d e s all h =
      let (v, hv, h1) = >>=-eq-ok (normalize platform given) _ h in
      let (u, checked, rest) = >>=-eq-ok (check_kind platform spec.kind name v) _ h1 in
      let same : insert name v d ≡ e = ok-injective rest in
      (
        subst AllSourced same (insert-AllSourced name v d (given, s, hv) all),
        subst (Keeps d) same (λ k w p. insert-keeps name k v w d p),
        (
          v,
          hv,
          checked,
          subst (λ x. lookup name x ≡ some v) same
              (lookup-insert name name v d ∙ rw (eq_refl name) refl),
        ),
      )

  TakenAs-later :
      (name : String) (spec : InputSpec) (o : Option Value) (d e : Dict Value)
      → lookup name supplied ≡ o
      → AllSourced e
      → Keeps d e
      → TakenAs d name spec o
      → TakenAs e name spec o
  TakenAs-later name spec none d e s all keeps t = t
  TakenAs-later name spec (some given) d e s all keeps t =
      let (u, found) = keeps name t.0 t.3 in
      let source = all name u found in
      let same : u ≡ t.0 = ok-injective (
        sym source.2
        ∙ ap (normalize platform) (some-injective source.0 given (sym source.1 ∙ s))
        ∙ t.1) in
      (t.0, t.1, t.2, found ∙ ap some same)

  take_inputs-All :
      (specs : Dict InputSpec) (d e : Dict Value)
      → AllSourced d
      → take_inputs platform specs supplied d ≡ ok e
      → AllSourced e × Keeps d e × All (IsTaken e) specs
  unfolding take_inputs
  take_inputs-All [] d e all h =
      let same : d ≡ e = ok-injective h in
      (subst AllSourced same all, subst (Keeps d) same (λ k v p. (v, p)), tt)
  take_inputs-All ((name, spec) ∷ specs) d e all h =
      let (c, hc, rest) = >>=-eq-ok (take_input platform name spec (lookup name supplied) d) _ h in
      let first = take_input-step name spec _ d c refl all hc in
      let others = take_inputs-All specs c e first.0 rest in
      (
        others.0,
        λ k v p. let q = first.1 k v p in others.1 k q.0 q.1,
        (TakenAs-later name spec _ c e refl others.0 others.1 first.2, others.2),
      )

  nothing_sourced : AllSourced []
  unfolding lookup
  nothing_sourced k v e = cc

-- Where `validate_inputs` accepts the inputs of a request, every declared input that was supplied has
-- its value in JSON form in the result, which passes the tests of its kind; and one that was not
-- supplied is not required.
pub validate_inputs-IsTaken :
    (platform : Platform) (w : Workflow) (supplied inputs : Dict Value)
    → validate_inputs platform w supplied ≡ ok inputs
    → All (IsTaken platform supplied inputs) w.inputs
unfolding validate_inputs
validate_inputs-IsTaken platform w supplied inputs h =
    let (u, known, rest) = >>=-eq-ok (require (is_nil (unknown_names supplied w.inputs)) _) _ h in
    (take_inputs-All platform supplied w.inputs [] inputs (nothing_sourced platform supplied)
      rest).2
