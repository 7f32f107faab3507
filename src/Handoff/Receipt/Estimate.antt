-- ===== src/Handoff/Receipt/Estimate.antt =====
-- When `_aggregate_cost` of delta/handoff.py knows the cost of what is left to do.
use delta_agent.Common.{
  ◌∙◌, str_eq, String, Bool, true, false, Option, none, some, List, [], ◌∷◌, ◌≡◌, ◌↔◌, refl, sym,
  arith, All, Bool-cases, inl, inr, eq_iff, ap, subst, ◌&&◌, and_iff,
}
use text.Mathlib.TextPositions.{eq_refl}
use delta_agent.Common.Result.{ok, >>=-eq-ok, ok-injective}
use delta_agent.Core.Platform.{Platform}
use delta_agent.Core.Schema.{CostEstimate, check_cost}
use delta_agent.Handoff.Receipt.{
  ReuseReceiptEntry, amount_of, known_amounts, one_currency, chargeable, sum_amounts, total_from,
  gate_cost, aggregate_cost,
}

-- An estimate with an amount of the currency.
abbrev pub IsPriced : String → Option CostEstimate → Type 0
IsPriced currency c = (amount : String) × (amount_of c ≡ some (amount, currency))

abbrev tests : String → Option (List (String × String)) → Bool
tests currency none = false
tests currency (some amounts) = one_currency currency amounts

tests-cons :
    (currency amount c : String) (found : Option (List (String × String)))
    → tests currency (elim found [ none ↦ none | some more ↦ some ((amount, c) ∷ more) ])
      ≡ (str_eq c currency && tests currency found)
unfolding one_currency
tests-cons currency amount c none = ground arith
tests-cons currency amount c (some more) = refl

-- The amounts of a list from that of its head and those of its tail.
abbrev glued :
    Option (String × String) → Option (List (String × String)) → Option (List (String × String))
glued o rest = elim o [
  | none ↦ none
  | some a ↦ elim rest [ none ↦ none | some more ↦ some (a ∷ more) ]
]

tests-glued :
    (currency : String) (c : Option CostEstimate) (cs : List (Option CostEstimate))
    (o : Option (String × String))
    → amount_of c ≡ o
    → tests currency (known_amounts (c ∷ cs)) ≡ tests currency (glued o (known_amounts cs))
unfolding known_amounts
tests-glued currency c cs o e = ap (λ p. tests currency (glued p (known_amounts cs))) e

IsPriced-cons :
    (currency : String) (c : Option CostEstimate) (cs : List (Option CostEstimate))
    (o : Option (String × String))
    → amount_of c ≡ o
    → (tests currency (known_amounts cs) ≡ true) ↔ All (IsPriced currency) cs
    → (tests currency (known_amounts (c ∷ cs)) ≡ true) ↔ All (IsPriced currency) (c ∷ cs)
IsPriced-cons currency c cs none e ih =
    (λ h. cc (sym (tests-glued currency c cs none e) ∙ h), λ h. cc (e, h.0.1))
IsPriced-cons currency c cs (some (amount, d)) e ih =
    let parts : tests currency (known_amounts (c ∷ cs))
        ≡ (str_eq d currency && tests currency (known_amounts cs)) =
      tests-glued currency c cs (some (amount, d)) e
      ∙ tests-cons currency amount d (known_amounts cs) in
    (
      λ h.
          let k = (and_iff _ _ (eq_iff d currency) ih).0 (sym parts ∙ h) in
          ((amount, e ∙ ap (λ z. some (amount, z)) k.0), k.1),
      λ h.
          let same : d ≡ currency = cc (e, h.0.1) in
          parts ∙ (and_iff _ _ (eq_iff d currency) ih).1 (same, h.1),
    )

IsPriced-known :
    (currency : String) (cs : List (Option CostEstimate))
    → (tests currency (known_amounts cs) ≡ true) ↔ All (IsPriced currency) cs
unfolding known_amounts one_currency
IsPriced-known currency [] = (λ h. tt, λ h. refl)
IsPriced-known currency (c ∷ cs) =
    IsPriced-cons currency c cs (amount_of c) refl (IsPriced-known currency cs)

abbrev unknown_text : String
unknown_text = "unknown"

abbrev known_text : String
known_text = "known"

unknown_known : unknown_text ≡ known_text → ⊥
unknown_known h = cc ((eq_iff "unknown" "known").1 h)

-- What the sum says: a known cost with an amount, of amounts in one currency, or nothing.
abbrev Says : Option (List (String × String)) → Option CostEstimate × String → Type 0
Says amounts (cost, status) =
    ((status ≡ "known") ↔ ((currency : String) × (tests currency amounts ≡ true)))
    × ((status ≡ "unknown") ↔ (cost ≡ none))

module _ (platform : Platform) where
  Says-unknown :
      (amounts : Option (List (String × String)))
      → ((currency : String) → tests currency amounts ≡ true → ⊥)
      → Says amounts (none, "unknown")
  Says-unknown amounts never =
      ((λ h. absurd (unknown_known h), λ h. absurd (never h.0 h.1)), (λ h. refl, λ h. refl))

  Says-known :
      (amounts : Option (List (String × String))) (currency : String) (c : CostEstimate)
      → tests currency amounts ≡ true
      → Says amounts (some c, "known")
  Says-known amounts currency c h =
      ((λ k. (currency, h), λ k. refl), (λ k. absurd (unknown_known (sym k)), λ k. cc))

  sum_amounts-Says :
      (amounts : Option (List (String × String))) (e : Option CostEstimate × String)
      → sum_amounts platform amounts ≡ ok e
      → Says amounts e
  unfolding one_currency
  sum_amounts-Says none e h =
      subst (Says none) (ok-injective h) (Says-unknown none (λ currency k. cc))
  sum_amounts-Says (some []) e h =
      let (c, hc, rest) = >>=-eq-ok (check_cost platform (gate_cost platform "0" "USDC")) _ h in
      subst (Says (some [])) (ok-injective rest) (Says-known (some []) "USDC" c refl)
  sum_amounts-Says (some ((a, currency) ∷ more)) e h =
      elim (Bool-cases (one_currency currency more)) [
        | inl same ↦
            let g = rw same at h in
            let (total, ht, h1) = >>=-eq-ok (total_from platform _ ((a, currency) ∷ more)) _ g in
            let (c, hc, rest) = >>=-eq-ok (check_cost platform _) _ h1 in
            subst (Says (some ((a, currency) ∷ more))) (ok-injective rest) (
              Says-known (some ((a, currency) ∷ more)) currency c
                (rw (eq_refl currency, same) refl))
        | inr mixed ↦ subst (Says (some ((a, currency) ∷ more))) (ok-injective (rw mixed at h)) (
            Says-unknown (some ((a, currency) ∷ more)) (λ d k.
              let same : currency ≡ d = (eq_iff currency d).0 (ground arith) in
              let all : one_currency d more ≡ true = ground arith in cc (mixed, same, all)))
      ]

-- The estimate of a receipt is known exactly when every entry that is to run again or that waits has
-- an amount, all in one currency; and it is unknown exactly when the receipt states no cost.
pub aggregate_cost-known_iff :
    (platform : Platform) (entries : List ReuseReceiptEntry) (cost : Option CostEstimate)
    (status : String)
    → aggregate_cost platform entries ≡ ok (cost, status)
    → ((status ≡ "known") ↔ ((currency : String) × All (IsPriced currency) (chargeable entries)))
      × ((status ≡ "unknown") ↔ (cost ≡ none))
unfolding aggregate_cost
aggregate_cost-known_iff platform entries cost status h =
    let s = sum_amounts-Says platform (known_amounts (chargeable entries)) (cost, status) h in
    (
      (
        λ k. let t = s.0.0 k in (t.0, (IsPriced-known t.0 (chargeable entries)).0 t.1),
        λ k. s.0.1 (k.0, (IsPriced-known k.0 (chargeable entries)).1 k.1),
      ),
      s.1,
    )
