-- ===== src/Engine/Spent.antt =====
-- delta/execute.py: what `_cost_summary` says.
use mathlib.Core.Option.{some-injective}
use delta_agent.Common.Result.{>>=-eq-ok, ok-injective, ok}
use delta_agent.Core.Plan.{StepDecision}
use delta_agent.Engine.Cost.{rerun_costs, summed, runtime_cost, CostSummary, cost_summary}
use delta_agent.Core.Schema.{CostEstimate, check_cost}
use delta_agent.Handoff.Receipt.{total_from, amount_of, known_amounts}
use delta_agent.Core.Platform.{Platform}
use delta_agent.Common.{
  subst, [], ◌∷◌, String, List, Option, ◌≡◌, refl, none, some, arith, ap, ◌∙◌, All, ◌↔◌,
}

abbrev pub HasAmount : Option CostEstimate → Type 0
HasAmount c = (priced : String × String) × (amount_of c ≡ some priced)

abbrev IsKnown : Option (List (String × String)) → Type 0
IsKnown none = ⊥
IsKnown (some amounts) = Unit

known_amounts-IsKnown :
    (cs : List (Option CostEstimate)) → IsKnown (known_amounts cs) ↔ All HasAmount cs
unfolding known_amounts
known_amounts-IsKnown [] = (λ h. tt, λ h. tt)
known_amounts-IsKnown (c ∷ cs) =
    each (amount_of c) (known_amounts cs) refl (known_amounts-IsKnown cs)
  where
    each :
        (o : Option (String × String)) (more : Option (List (String × String)))
        → amount_of c ≡ o
        → IsKnown more ↔ All HasAmount cs
        → IsKnown (elim o [
          | none ↦ none
          | some a ↦ elim more [ none ↦ none | some rest ↦ some (a ∷ rest) ]
        ])
          ↔ All HasAmount (c ∷ cs)
    each none more e rest = (λ h. elim h [ ], λ h. cc (e, h.0.1))
    each (some a) none e rest = (λ h. elim h [ ], λ h. rest.1 h.1)
    each (some a) (some amounts) e rest = (λ h. ((a, e), rest.0 tt), λ h. tt)

module _ (platform : Platform) where
  runtime_cost-currency :
      (amount : String) (c : CostEstimate)
      → runtime_cost platform amount ≡ ok c
      → c.currency ≡ "USDC"
  unfolding check_cost
  runtime_cost-currency amount c h = ground arith

  -- What a summary says of the amounts that it was made from.
  abbrev Says : Option (List (String × String)) → CostSummary → Type 0
  Says o s =
      ((s.estimate_status ≡ "known") ↔ IsKnown o)
      × ((c : CostEstimate) → s.estimated_additional_service_cost ≡ some c → c.currency ≡ "USDC")

  summed-Says :
      (o : Option (List (String × String))) (s : CostSummary) → summed platform o ≡ ok s → Says o s
  summed-Says none s h = subst (Says none) (ok-injective h) ((λ k. cc, λ k. elim k [ ]), λ c k. cc)
  summed-Says (some []) s h =
      let (c, h1, h2) = >>=-eq-ok (runtime_cost platform "0") _ h in
      subst (Says (some [])) (ok-injective h2) (
        (λ k. tt, λ k. refl),
        λ d k. runtime_cost-currency "0" d (h1 ∙ ap ok (some-injective c d k)),
      )
  summed-Says (some (a ∷ more)) s h =
      let (total, h0, h1) =
        >>=-eq-ok (total_from platform (Platform.zero_decimal platform) (a ∷ more)) _ h in
      let (c, h2, h3) =
        >>=-eq-ok (runtime_cost platform (Platform.plain_text platform total)) _ h1 in
      subst (Says (some (a ∷ more))) (ok-injective h3) (
        (λ k. tt, λ k. refl),
        λ d k.
            runtime_cost-currency (Platform.plain_text platform total) d
              (h2 ∙ ap ok (some-injective c d k)),
      )

  -- The estimate of a summary is known exactly where every decision to run a step again has an
  -- amount, whatever the currencies are, and its currency is always USDC.
  pub cost_summary-known_iff :
      (decisions : List StepDecision) (s : CostSummary)
      → cost_summary platform decisions ≡ ok s
      → ((s.estimate_status ≡ "known") ↔ All HasAmount (rerun_costs decisions))
        × ((c : CostEstimate) → s.estimated_additional_service_cost ≡ some c → c.currency ≡ "USDC")
  unfolding cost_summary
  cost_summary-known_iff decisions s h =
      let says = summed-Says (known_amounts (rerun_costs decisions)) s h in
      let known = known_amounts-IsKnown (rerun_costs decisions) in
      ((λ k. known.0 (says.0.0 k), λ k. says.0.1 (known.1 k)), says.1)
