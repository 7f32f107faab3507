-- ===== src/Handoff/Policy/Lookup.antt =====
-- What a `PolicySet` of delta/handoff.py answers for a work category.
use mathlib.Core.Option.{some-injective}
use text.Mathlib.TextPositions.{eq_refl}
use delta_agent.Common.{
  ap, String, Option, none, some, List, [], ◌∷◌, ◌≡◌, ◌⊎◌, refl, sym, ◌∙◌, subst, All, Some,
  Bool-cases, inl, inr, eq_iff, str_eq,
}
use delta_agent.Common.Result.{ok, >>=-eq-ok, ok-injective}
use delta_agent.Common.Dict.{Dict, lookup, insert, lookup-insert}
use delta_agent.Core.Platform.{Platform}
use delta_agent.Handoff.Policy.{
  InheritancePolicy, PolicySet, add_policy, add_policies, make_policies, for_category,
}

abbrev Keeps : Dict InheritancePolicy → Dict InheritancePolicy → Type 0
Keeps d e = (k : String) (p : InheritancePolicy) → lookup k d ≡ some p → lookup k e ≡ some p

-- A policy that is one of `ps`, and is found under its own category.
abbrev pub IsListed : List InheritancePolicy → String → InheritancePolicy → Type 0
IsListed ps category p = (p.work_category ≡ category) × Some (λ q. q ≡ p) ps

abbrev From : List InheritancePolicy → Dict InheritancePolicy → Dict InheritancePolicy → Type 0
From ps d e =
    (k : String) (p : InheritancePolicy)
    → lookup k e ≡ some p
    → (lookup k d ≡ some p) ⊎ IsListed ps k p

add_policy-new :
    (platform : Platform) (o : Option InheritancePolicy) (p : InheritancePolicy)
    (d e : Dict InheritancePolicy)
    → add_policy platform o p d ≡ ok e
    → (o ≡ none) × (insert p.work_category p d ≡ e)
add_policy-new platform none p d e h = (refl, ok-injective h)
add_policy-new platform (some q) p d e h = cc

insert-Keeps :
    (p : InheritancePolicy) (d : Dict InheritancePolicy)
    → lookup p.work_category d ≡ none
    → Keeps d (insert p.work_category p d)
insert-Keeps p d absent k q e = elim (Bool-cases (str_eq p.work_category k)) [
  | inl same ↦
      let f : none ≡ some q =
        sym absent ∙ subst (λ j. lookup j d ≡ some q) (sym ((eq_iff p.work_category k).0 same)) e in
      cc f
  | inr differs ↦ lookup-insert p.work_category k p d ∙ rw differs e
]

insert-From :
    (p : InheritancePolicy) (ps : List InheritancePolicy) (d : Dict InheritancePolicy)
    → From (p ∷ ps) d (insert p.work_category p d)
insert-From p ps d k q e = elim (Bool-cases (str_eq p.work_category k)) [
  | inl same ↦
      let f : some p ≡ some q = rw same at (sym (lookup-insert p.work_category k p d) ∙ e) in
      let g : p ≡ q = some-injective p q f in
      inr (subst (λ r. r.work_category ≡ k) g ((eq_iff p.work_category k).0 same), inl g)
  | inr differs ↦ inl (rw differs at (sym (lookup-insert p.work_category k p d) ∙ e))
]

module _ (platform : Platform) where
  add_policies-All :
      (ps : List InheritancePolicy) (d e : Dict InheritancePolicy)
      → add_policies platform ps d ≡ ok e
      → Keeps d e × All (λ p. lookup p.work_category e ≡ some p) ps × From ps d e
  unfolding add_policies
  add_policies-All [] d e h =
      let same : d ≡ e = ok-injective h in
      (subst (Keeps d) same (λ k p f. f), tt, subst (From [] d) same (λ k p f. inl f))
  add_policies-All (p ∷ ps) d e h =
      let (c, hc, rest) = >>=-eq-ok (add_policy platform (lookup p.work_category d) p d) _ h in
      let new = add_policy-new platform _ p d c hc in
      let keeps = subst (Keeps d) new.1 (insert-Keeps p d new.0) in
      let from = subst (From (p ∷ ps) d) new.1 (insert-From p ps d) in
      let placed : lookup p.work_category c ≡ some p =
        subst (λ x. lookup p.work_category x ≡ some p) new.1
          (lookup-insert p.work_category p.work_category p d ∙ rw (eq_refl p.work_category) refl) in
      let later = add_policies-All ps c e rest in
      (
        λ k q f. later.0 k q (keeps k q f),
        (later.0 p.work_category p placed, later.1),
        λ k q f. elim (later.2 k q f) [ inl g ↦ from k q g | inr g ↦ inr (g.0, inr g.1) ],
      )

empty_lookup :
    (k : String) (p : InheritancePolicy) → lookup {V = InheritancePolicy} k [] ≡ some p → ⊥
unfolding lookup
empty_lookup k p h = cc

-- A policy set that could be made answers each of its policies for that policy's category, so no two
-- share one; and what it answers for a category is one of its policies, of that category.
pub make_policies-IsListed :
    (platform : Platform) (ps : List InheritancePolicy) (s : PolicySet)
    → make_policies platform ps ≡ ok s
    → All (λ p. for_category s (some p.work_category) ≡ some p) ps
      × ((category : String) (p : InheritancePolicy)
          → for_category s (some category) ≡ some p
          → IsListed ps category p)
unfolding make_policies for_category
make_policies-IsListed platform ps s h =
    let (d, hd, rest) = >>=-eq-ok (add_policies platform ps []) _ h in
    let t = add_policies-All platform ps [] d hd in
    let same : d ≡ s.by_category = ap (λ (x : PolicySet). x.by_category) (ok-injective rest) in
    (
      subst (λ e. All (λ p. lookup p.work_category e ≡ some p) ps) same t.1,
      λ category p f. elim (t.2 category p (subst (λ e. lookup category e ≡ some p) (sym same) f)) [
        | inl g ↦ absurd (empty_lookup category p g)
        | inr g ↦ g
      ],
    )
