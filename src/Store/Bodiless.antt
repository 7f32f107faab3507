-- ===== src/Store/Bodiless.antt =====
-- delta/handoff.py: what the gate persists, before the guard of delta/store.py against output bodies.
use delta_agent.Common.Result.{ok}
use delta_agent.Handoff.Receipt.{ReuseReceiptEntry, entry_payload}
use delta_agent.Core.Platform.{Platform}
use delta_agent.Core.Schema.{CostEstimate}
use delta_agent.Store.Bodies.{reject_untrusted_bodies, forbidden, has_key}
use delta_agent.Handoff.Decision.{
  HandoffDecision, cost_payload, decision_payload, WorkEvidence, evidence_payload,
}
use delta_agent.Handoff.Verdict.{
  job_status_text, dependency_text, authorization_text, trust_text, verdict_payload, Verdict,
  validity_text, HandoffVerdicts, verdicts_payload,
}
use delta_agent.Store.Clean.{reject_untrusted_bodies-IsClean_iff, IsClean}
use delta_agent.Core.Value.{Value, bool, int, str, Entries}
use delta_agent.Common.{
  [], ◌∷◌, List, All, ℤ, Bool, String, Option, ◌≡◌, refl, false, map, none, some,
}
use delta_agent.Core.Value

text-IsClean : (o : Option String) → IsClean (Value.optional str o)
unfolding IsClean
text-IsClean none = tt
text-IsClean (some s) = tt

number-IsClean : (o : Option ℤ) → IsClean (Value.optional int o)
unfolding IsClean
number-IsClean none = tt
number-IsClean (some n) = tt

flag-IsClean : (o : Option Bool) → IsClean (Value.optional bool o)
unfolding IsClean
flag-IsClean none = tt
flag-IsClean (some b) = tt

-- None of the five keys is there.
free : All (λ k. false ≡ false) forbidden
free = (refl, (refl, (refl, (refl, (refl, tt)))))

evidence-IsClean : (e : WorkEvidence) → IsClean (evidence_payload e)
unfolding IsClean evidence_payload has_key
evidence-IsClean e = (free, search (text-IsClean, number-IsClean, flag-IsClean))

verdict-IsClean :
    {S : Type 0} (text : S → String) (v : Verdict S) → IsClean (verdict_payload text v)
unfolding IsClean has_key
verdict-IsClean text v = (free, (tt, (tt, (tt, tt))))

verdicts-IsClean : (v : HandoffVerdicts) → IsClean (verdicts_payload v)
unfolding IsClean verdicts_payload has_key
verdicts-IsClean v = (
  free,
  (
    verdict-IsClean validity_text v.validity,
    (
      verdict-IsClean trust_text v.trust,
      (
        verdict-IsClean authorization_text v.authorization,
        (
          verdict-IsClean dependency_text v.dependency,
          (verdict-IsClean job_status_text v.external_job, tt),
        ),
      ),
    ),
  ),
)

cost-IsClean : (c : Option CostEstimate) → IsClean (cost_payload c)
unfolding IsClean has_key
cost-IsClean none = tt
cost-IsClean (some c) = (free, search text-IsClean)

decision-IsClean : (d : HandoffDecision) → IsClean (decision_payload d)
unfolding IsClean decision_payload has_key
decision-IsClean d =
    (free, search (text-IsClean, verdicts-IsClean, evidence-IsClean, cost-IsClean) depth 20)

entry-IsClean : (e : ReuseReceiptEntry) → IsClean (entry_payload e)
unfolding IsClean entry_payload has_key
entry-IsClean e =
    (free, search (text-IsClean, verdicts-IsClean, evidence-IsClean, cost-IsClean) depth 20)

array-IsClean :
    {A : Type 0} (payload : A → Value)
    → ((a : A) → IsClean (payload a))
    → (xs : List A) → IsClean (Value.array (map payload xs))
unfolding IsClean
array-IsClean payload each [] = tt
array-IsClean payload each (x ∷ xs) = (each x, array-IsClean payload each xs)

module _ (platform : Platform) where
  -- Whatever the gate has decided, the guard of the store lets the decisions of its record and the
  -- entries of its receipt pass: none of them carries an output body.
  pub reject_untrusted_bodies-passes :
      (decisions : List HandoffDecision) (entries : List ReuseReceiptEntry)
      → (reject_untrusted_bodies platform (Value.array (map decision_payload decisions)) ≡ ok tt)
        × (reject_untrusted_bodies platform (Value.array (map entry_payload entries)) ≡ ok tt)
  reject_untrusted_bodies-passes decisions entries = (
    (reject_untrusted_bodies-IsClean_iff platform _).0.1
        (array-IsClean decision_payload decision-IsClean decisions),
    (reject_untrusted_bodies-IsClean_iff platform _).0.1
        (array-IsClean entry_payload entry-IsClean entries),
  )
