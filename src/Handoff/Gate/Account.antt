-- ===== src/Handoff/Gate/Account.antt =====
-- The receipt of an evaluation of delta/handoff.py, against its candidates.
use delta_agent.Common.{subst, ◌∙◌, sym, ap, String, List, [], ◌∷◌, map, ◌≡◌, arith}
use delta_agent.Common.Result.{Result, ok, >>=-eq-ok, ok-injective, map_result}
use delta_agent.Core.Value.{DateTime}
use delta_agent.Core.Platform.{Platform}
use delta_agent.Handoff.Decision.{DecisionKind, HandoffDecision, HandoffCandidate}
use delta_agent.Handoff.Receipt.{
  decision_counts, ReuseReceiptEntry, ReuseReceipt, check_entry, from_decision, entry_kinds,
  check_receipt, aggregate_cost,
}
use delta_agent.Handoff.Receipt.Tally.{Tallies, decision_counts-Tallies}
use delta_agent.Handoff.Discovery.{HandoffRequest}
use delta_agent.Handoff.Gate.{receipt_digest, build_receipt}

map_result-map {ℓ κ μ} :
    {A : Type ℓ} {B : Type κ} {C : Type μ} (f : A → Result B) (g : B → C) (h : A → C)
    → ((a : A) (b : B) → f a ≡ ok b → g b ≡ h a)
    → (xs : List A) (ys : List B) → map_result f xs ≡ ok ys
    → map g ys ≡ map h xs
unfolding map_result
map_result-map f g h each [] ys e = ap (map g) (sym (ok-injective e))
map_result-map f g h each (x ∷ xs) ys e =
    let (y, hy, h1) = >>=-eq-ok (f x) _ e in
    let (zs, hz, h2) = >>=-eq-ok (map_result f xs) _ h1 in
    ap (map g) (sym (ok-injective h2)) ∙ cc (each x y hy, map_result-map f g h each xs zs hz)

from_decision-kept :
    (d : HandoffDecision) (e : ReuseReceiptEntry)
    → from_decision d ≡ ok e
    → (e.step_id ≡ d.step_id)
      × (e.decision ≡ d.decision)
      × (e.reason_code ≡ d.reason_code)
      × (e.verdicts ≡ d.verdicts)
      × (e.evidence ≡ d.evidence)
unfolding from_decision check_entry
from_decision-kept d e h = (ground arith, ground arith, ground arith, ground arith, ground arith)

check_receipt-kept :
    (r s : ReuseReceipt)
    → check_receipt r ≡ ok s
    → (s.entries ≡ r.entries) × (s.counts ≡ decision_counts (entry_kinds r.entries))
unfolding check_receipt
check_receipt-kept r s h = (ground arith, ground arith)

-- What a line of the receipt says of a candidate's decision.
abbrev pub summary_of : HandoffDecision → String × DecisionKind
summary_of d = (d.step_id, d.decision)

-- The receipt that `_build_receipt` returns has one entry for each candidate, in order, on its step
-- and with its decision; and its counts are those of the decisions, each decision counted once.
pub build_receipt-accounts :
    (platform : Platform) (handoff_id : String) (request : HandoffRequest)
    (cs : List HandoffCandidate) (created_at : DateTime) (receipt : ReuseReceipt)
    → build_receipt platform handoff_id request cs created_at ≡ ok receipt
    → (map (λ e. (e.step_id, e.decision)) receipt.entries ≡ map (λ c. summary_of c.decision) cs)
      × Tallies receipt.counts (map (λ c. c.decision.decision) cs)
unfolding build_receipt
build_receipt-accounts platform handoff_id request cs created_at receipt h =
    let (entries, he, h1) =
      >>=-eq-ok (map_result (λ (c : HandoffCandidate). from_decision c.decision) cs) _ h in
    let (estimate, hc, h2) = >>=-eq-ok (aggregate_cost platform entries) _ h1 in
    let (receipt_id, hr, h3) =
      >>=-eq-ok
        (receipt_digest platform handoff_id entries (decision_counts (entry_kinds entries))
          estimate.1)
        _ h2 in
    let kept = check_receipt-kept _ receipt h3 in
    let lines =
      map_result-map (λ (c : HandoffCandidate). from_decision c.decision)
        (λ (e : ReuseReceiptEntry). (e.step_id, e.decision)) (λ c. summary_of c.decision)
        (λ c e k. let f = from_decision-kept c.decision e k in cc (f.0, f.1)) cs entries he in
    let kinds : entry_kinds entries ≡ map (λ c. c.decision.decision) cs =
      map_result-map (λ (c : HandoffCandidate). from_decision c.decision)
        (λ (e : ReuseReceiptEntry). e.decision) (λ c. c.decision.decision)
        (λ c e k. (from_decision-kept c.decision e k).1) cs entries he in
    (
      ap (map (λ e. (e.step_id, e.decision))) kept.0 ∙ lines,
      subst (λ ds. Tallies receipt.counts ds) kinds
          (subst (λ n. Tallies n (entry_kinds entries)) (sym kept.1)
            (decision_counts-Tallies (entry_kinds entries))),
    )
