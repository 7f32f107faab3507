-- ===== src/Core/Workflow/Indexed.antt =====
-- The dict of the steps of a workflow by their ids, `{step.id: step for step in steps}`.
use mathlib.Core.Option.{some-injective}
use delta_agent.Common.{
  String, Option, none, some, List, [], ◌∷◌, ◌≡◌, ◌⊎◌, sym, ◌∙◌, ap, Some, Bool-cases, inl, inr,
  eq_iff, str_eq,
}
use delta_agent.Common.Result.{ok, ok-injective}
use delta_agent.Common.Dict.{Dict, lookup, insert, lookup-insert}
use delta_agent.Core.Work.{Step}
use delta_agent.Core.Workflow.{at_key, index_steps}

pub at_key-some {ℓ} :
    {V : Type ℓ} (o : Option V) (k : String) (v : V) → at_key o k ≡ ok v → o ≡ some v
at_key-some none k v h = cc
at_key-some (some w) k v h = ap some (ok-injective h)

-- A step that is found was there before, or is one of those that were put in, of that id.
index_steps-cases :
    (d : Dict Step) (steps : List Step) (k : String) (s : Step)
    → lookup k (index_steps (λ t. t) d steps) ≡ some s
    → (lookup k d ≡ some s) ⊎ ((s.id ≡ k) × Some (λ t. t ≡ s) steps)
unfolding index_steps
index_steps-cases d [] k s h = inl h
index_steps-cases d (t ∷ steps) k s h = elim (index_steps-cases (insert t.id t d) steps k s h) [
  | inr later ↦ inr (later.0, inr later.1)
  | inl e ↦
      let f = sym (lookup-insert t.id k t d) ∙ e in
      elim (Bool-cases (str_eq t.id k)) [
        | inl same ↦
            let g = some-injective t s (rw same at f) in
            inr (sym (ap (λ (x : Step). x.id) g) ∙ (eq_iff t.id k).0 same, inl g)
        | inr other ↦ inl (rw other at f)
      ]
]

pub index_steps-found :
    (steps : List Step) (k : String) (s : Step)
    → lookup k (index_steps (λ t. t) [] steps) ≡ some s
    → (s.id ≡ k) × Some (λ t. t ≡ s) steps
unfolding lookup
index_steps-found steps k s h = elim (index_steps-cases [] steps k s h) [
  | inl e ↦ absurd (cc e)
  | inr found ↦ found
]
