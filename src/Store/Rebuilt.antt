-- ===== src/Store/Rebuilt.antt =====
-- delta/handoff.py: decisions that are written to payloads and read back.
use delta_agent.Store.Previewed.{kind-recovered}
use delta_agent.Core.Schema.{check_cost, CostEstimate}
use delta_agent.Core.Platform.{Platform}
use delta_agent.Store.Fields.{object_of, get, loose_text}
use delta_agent.Common.Result.{◌>>=◌, ok, Result}
use delta_agent.Handoff.Decision.{
  HandoffDecision, cost_payload, check_decision, decision_payload, WorkEvidence, evidence_payload,
}
use delta_agent.Store.Rebuild.{
  decode_cost_fields, decode_decision, decode_cost, trust_members, job_members, dependency_members,
  authorization_members, validity_members, verdict_fields, loose_flag, loose_number, status_of,
  decode_evidence, decode_verdicts,
}
use delta_agent.Core.Value.{str, Value, Entries}
use delta_agent.Handoff.Verdict.{
  unsafe, pending, safe, untrusted, unauthorized, invalid, valid, trusted, verdict_payload,
  not_applicable, authorized, satisfied, authorization_text, trust_text, job_status_text,
  dependency_text, Verdict, validity_text, ValidityStatus, TrustStatus, AuthorizationStatus,
  ExternalJobStatus, DependencyStatus, check_verdict, verdicts_payload, HandoffVerdicts,
}
use delta_agent.Common.Dict.{lookup, Dict}
use delta_agent.Common.{Bool, ℤ, String, Option, ◌≡◌, refl, none, some, arith}
use delta_agent.Core.Value

loose-text : (o : Option String) → loose_text (Value.optional str o) ≡ ok o
loose-text none = refl
loose-text (some s) = refl

loose-flag : (o : Option Bool) → loose_flag (Value.optional Value.bool o) ≡ ok o
loose-flag none = refl
loose-flag (some b) = refl

loose-number : (o : Option ℤ) → loose_number (Value.optional Value.int o) ≡ ok o
loose-number none = refl
loose-number (some n) = refl

-- What an object is read as.
abbrev pub read_object {ℓ} : {A : Type ℓ} → (Entries → Result A) → Value → Result A
read_object read v = object_of v >>= read

pub evidence-recovered :
    (e : WorkEvidence) → read_object decode_evidence (evidence_payload e) ≡ ok e
unfolding decode_evidence evidence_payload get
evidence-recovered e =
    rw
      (
        loose-text e.record_key,
        loose-text e.output_signature,
        loose-text e.artifact_id,
        loose-text e.artifact_hash,
        loose-flag e.artifact_available,
        loose-text e.source_agent_id,
        loose-text e.source_session_id,
        loose-text e.source_provider_id,
        loose-text e.work_category,
        loose-text e.external_exposure,
        loose-text e.external_job_provider_id,
        loose-text e.external_job_id,
        loose-number e.external_job_chain_id,
        loose-text e.external_job_settlement,
        loose-text e.external_job_transaction_hash,
        loose-text e.completed_at,
        loose-text e.fresh_until,
      )
      refl

module _ {S : Type 0} (members : Dict S) (text : S → String)
    (named : (s : S) → status_of members (str (text s)) ≡ ok s) where
  verdict-recovered :
      (v : Verdict S)
      → check_verdict v ≡ ok v
      → read_object (verdict_fields members) (verdict_payload text v) ≡ ok v
  unfolding verdict_fields check_verdict get
  verdict-recovered v h = ground (arith, named v.status)

validity-named : (s : ValidityStatus) → status_of validity_members (str (validity_text s)) ≡ ok s
unfolding status_of lookup
validity-named valid = refl
validity-named invalid = refl
validity-named ValidityStatus.no_candidate = refl
validity-named ValidityStatus.unevaluated = refl

trust-named : (s : TrustStatus) → status_of trust_members (str (trust_text s)) ≡ ok s
unfolding status_of lookup
trust-named trusted = refl
trust-named untrusted = refl
trust-named TrustStatus.no_candidate = refl
trust-named TrustStatus.unevaluated = refl

authorization-named :
    (s : AuthorizationStatus) → status_of authorization_members (str (authorization_text s)) ≡ ok s
unfolding status_of lookup
authorization-named authorized = refl
authorization-named unauthorized = refl
authorization-named AuthorizationStatus.no_candidate = refl
authorization-named AuthorizationStatus.unevaluated = refl

dependency-named :
    (s : DependencyStatus) → status_of dependency_members (str (dependency_text s)) ≡ ok s
unfolding status_of lookup
dependency-named satisfied = refl
dependency-named pending = refl

job-named : (s : ExternalJobStatus) → status_of job_members (str (job_status_text s)) ≡ ok s
unfolding status_of lookup
job-named not_applicable = refl
job-named safe = refl
job-named ExternalJobStatus.reconciliation_required = refl
job-named unsafe = refl
job-named ExternalJobStatus.unevaluated = refl

-- Verdicts that the checks of their class have accepted.
abbrev pub AreSound : HandoffVerdicts → Type 0
AreSound v =
    (check_verdict v.validity ≡ ok v.validity)
    × (check_verdict v.trust ≡ ok v.trust)
    × (check_verdict v.authorization ≡ ok v.authorization)
    × (check_verdict v.dependency ≡ ok v.dependency)
    × (check_verdict v.external_job ≡ ok v.external_job)

pub verdicts-recovered :
    (v : HandoffVerdicts) → AreSound v → read_object decode_verdicts (verdicts_payload v) ≡ ok v
unfolding decode_verdicts verdicts_payload get
verdicts-recovered v h =
    rw
      (
        verdict-recovered validity_members validity_text validity-named v.validity h.0,
        verdict-recovered trust_members trust_text trust-named v.trust h.1,
        verdict-recovered authorization_members authorization_text authorization-named
            v.authorization h.2,
        verdict-recovered dependency_members dependency_text dependency-named v.dependency h.3,
        verdict-recovered job_members job_status_text job-named v.external_job h.4,
      )
      refl

-- The payload of a cost has no field for the time of its quote.
abbrev pub unquoted : Option CostEstimate → Option CostEstimate
unquoted none = none
unquoted (some c) = some (record c { quoted_at = none })

module _ (platform : Platform) where
  abbrev pub IsCheckedCost : Option CostEstimate → Type 0
  IsCheckedCost none = Unit
  IsCheckedCost (some c) = check_cost platform c ≡ ok c

  pub cost-unquoted :
      (o : Option CostEstimate)
      → IsCheckedCost o
      → decode_cost platform (cost_payload o) ≡ ok (unquoted o)
  unfolding decode_cost decode_cost_fields get check_cost
  cost-unquoted none h = refl
  cost-unquoted (some c) h = ground arith

  -- A checked decision is read back from its payload as it was, but for the time at which its cost
  -- was quoted.
  pub decode_decision-decision_payload :
      (d : HandoffDecision)
      → check_decision d ≡ ok d
      → AreSound d.verdicts
      → IsCheckedCost d.estimated_cost
      → read_object (decode_decision platform) (decision_payload d)
        ≡ ok (record d { estimated_cost = unquoted d.estimated_cost })
  unfolding decode_decision decision_payload get check_decision
  decode_decision-decision_payload d h verdicts cost = ground (
    arith,
    verdicts-recovered d.verdicts verdicts,
    evidence-recovered d.evidence,
    kind-recovered d.decision,
    cost-unquoted d.estimated_cost cost,
    loose-text d.input_signature,
  )
