-- ===== src/Handoff/Decision.antt =====
-- delta/handoff.py: evidence, decisions and candidates.
use delta_agent.Common.{
  String, Bool, true, false, not, ◌&&◌, Option, none, some, [], ◌∷◌, ℤ, str_eq,
}
use delta_agent.Common.Result.{Result, ok, handoff_policy, ◌>>◌, require, refuse}
use delta_agent.Core.Value
use delta_agent.Core.Value.{Value, DateTime, null, bool, int, str}
use delta_agent.Core.Platform.{Platform}
use delta_agent.Core.Schema.{
  CostEstimate, ExternalExposure, internal_only, shareable, ExternalJobSettlement, settled,
  reconciliation_required, unsettled, unknown, ExternalJobRef, WorkProvenance,
}
use delta_agent.Core.Work.{WorkResult}
pub use delta_agent.Core.Plan.{
  DecisionKind, reuse, rerun, pending_dependency, blocked, kind_text, is_reuse,
}
use delta_agent.Handoff.Policy.{identifier}
use delta_agent.Handoff.Verdict.{HandoffVerdicts, approves_inheritance, verdicts_payload}

abbrev pub exposure_text : ExternalExposure → String
exposure_text internal_only = "internal_only"
exposure_text shareable = "shareable"

abbrev pub settlement_text : ExternalJobSettlement → String
settlement_text settled = "settled"
settlement_text reconciliation_required = "reconciliation_required"
settlement_text unsettled = "unsettled"
settlement_text unknown = "unknown"

-- References to a candidate's record. There is no field for its output.
pub record WorkEvidence : Type 0 where
  pub record_key : Option String
  pub output_signature : Option String
  pub artifact_id : Option String
  pub artifact_hash : Option String
  pub artifact_available : Option Bool
  pub source_agent_id : Option String
  pub source_session_id : Option String
  pub source_provider_id : Option String
  pub work_category : Option String
  pub external_exposure : Option String
  pub external_job_provider_id : Option String
  pub external_job_id : Option String
  pub external_job_chain_id : Option ℤ
  pub external_job_settlement : Option String
  pub external_job_transaction_hash : Option String
  pub completed_at : Option String
  pub fresh_until : Option String

-- `WorkEvidence()`, and `WorkEvidence(record_key=key)`
abbrev pub no_evidence : Option String → WorkEvidence
no_evidence key = record {
  record_key = key;
  output_signature = none;
  artifact_id = none;
  artifact_hash = none;
  artifact_available = none;
  source_agent_id = none;
  source_session_id = none;
  source_provider_id = none;
  work_category = none;
  external_exposure = none;
  external_job_provider_id = none;
  external_job_id = none;
  external_job_chain_id = none;
  external_job_settlement = none;
  external_job_transaction_hash = none;
  completed_at = none;
  fresh_until = none;
}

unfoldable pub evidence_payload : WorkEvidence → Value
evidence_payload e = Value.object (
    ("record_key", Value.optional str e.record_key)
    ∷ ("output_signature", Value.optional str e.output_signature)
    ∷ ("artifact_id", Value.optional str e.artifact_id)
    ∷ ("artifact_hash", Value.optional str e.artifact_hash)
    ∷ ("artifact_available", Value.optional bool e.artifact_available)
    ∷ ("source_agent_id", Value.optional str e.source_agent_id)
    ∷ ("source_session_id", Value.optional str e.source_session_id)
    ∷ ("source_provider_id", Value.optional str e.source_provider_id)
    ∷ ("work_category", Value.optional str e.work_category)
    ∷ ("external_exposure", Value.optional str e.external_exposure)
    ∷ ("external_job_provider_id", Value.optional str e.external_job_provider_id)
    ∷ ("external_job_id", Value.optional str e.external_job_id)
    ∷ ("external_job_chain_id", Value.optional int e.external_job_chain_id)
    ∷ ("external_job_settlement", Value.optional str e.external_job_settlement)
    ∷ ("external_job_transaction_hash", Value.optional str e.external_job_transaction_hash)
    ∷ ("completed_at", Value.optional str e.completed_at)
    ∷ ("fresh_until", Value.optional str e.fresh_until)
    ∷ [])

-- `f(x) if x else None`
abbrev pub when_set {ℓ κ} : {A : Type ℓ} {B : Type κ} → Option A → (A → B) → Option B
when_set none f = none
when_set (some a) f = some (f a)

-- `x.y if x else None` where `y` may be None itself
abbrev pub and_then {ℓ κ} : {A : Type ℓ} {B : Type κ} → Option A → (A → Option B) → Option B
and_then none f = none
and_then (some a) f = f a

module _ (platform : Platform) where
  open platform use {datetime_text}

  abbrev pub evidence_of :
      WorkResult → Option String → Option WorkProvenance → Option ExternalJobRef → WorkEvidence
  evidence_of r record_key provenance external_job = record {
    record_key = record_key;
    output_signature = some r.output_signature;
    artifact_id = when_set r.artifact (λ a. a.artifact_id);
    artifact_hash = when_set r.artifact (λ a. a.content_hash);
    artifact_available = when_set r.artifact (λ a. a.available);
    source_agent_id = when_set provenance (λ p. p.source_agent_id);
    source_session_id = when_set provenance (λ p. p.source_session_id);
    source_provider_id = when_set provenance (λ p. p.source_provider_id);
    work_category = when_set provenance (λ p. p.work_category);
    external_exposure = when_set provenance (λ p. exposure_text p.external_exposure);
    external_job_provider_id = when_set external_job (λ j. j.provider_id);
    external_job_id = when_set external_job (λ j. j.job_id);
    external_job_chain_id = when_set external_job (λ j. j.chain_id);
    external_job_settlement = when_set external_job (λ j. settlement_text j.settlement_state);
    external_job_transaction_hash = and_then external_job (λ j. j.transaction_hash);
    completed_at = when_set r.completed_at datetime_text;
    fresh_until = when_set r.fresh_until datetime_text;
  }

  -- `_evidence_for`
  unfoldable pub evidence_for : Option WorkResult → Option String → WorkEvidence
  evidence_for none record_key = no_evidence record_key
  evidence_for (some r) record_key =
      evidence_of r record_key r.provenance (and_then r.provenance (λ p. p.external_job))

pub record HandoffDecision : Type 0 where
  pub step_id : String
  pub decision : DecisionKind
  pub reason_code : String
  pub reason : String
  pub verdicts : HandoffVerdicts
  pub found_candidate : Bool
  pub evidence : WorkEvidence
  pub input_signature : Option String
  pub estimated_cost : Option CostEstimate

abbrev pub approved : HandoffDecision → Bool
approved d = is_reuse d.decision

unfoldable pub check_decision : HandoffDecision → Result HandoffDecision
check_decision d = do
  identifier d.step_id "step_id"
  identifier d.reason_code "reason_code"
  identifier d.reason "reason"
  refuse (is_reuse d.decision && not (approves_inheritance d.verdicts))
      (handoff_policy "a reuse decision requires every verdict to approve")
  refuse (not (is_reuse d.decision) && approves_inheritance d.verdicts)
      (handoff_policy "fully approved verdicts must produce a reuse decision")
  ok d

abbrev pub cost_payload : Option CostEstimate → Value
cost_payload none = null
cost_payload (some c) = Value.object (
    ("amount", Value.optional str c.amount)
    ∷ ("currency", str c.currency)
    ∷ ("source", str c.source)
    ∷ [])

unfoldable pub decision_payload : HandoffDecision → Value
decision_payload d = Value.object (
    ("step_id", str d.step_id)
    ∷ ("decision", str (kind_text d.decision))
    ∷ ("reason_code", str d.reason_code)
    ∷ ("reason", str d.reason)
    ∷ ("found_candidate", bool d.found_candidate)
    ∷ ("input_signature", Value.optional str d.input_signature)
    ∷ ("verdicts", verdicts_payload d.verdicts)
    ∷ ("evidence", evidence_payload d.evidence)
    ∷ ("estimated_cost", cost_payload d.estimated_cost)
    ∷ [])

pub record HandoffCandidate : Type 0 where
  pub step_id : String
  pub result : Option WorkResult
  pub decision : HandoffDecision

abbrev pub is_none {ℓ} : {A : Type ℓ} → Option A → Bool
is_none none = true
is_none (some a) = false

unfoldable pub check_candidate : HandoffCandidate → Result HandoffCandidate
check_candidate c = do
  require (str_eq c.decision.step_id c.step_id)
      (handoff_policy "candidate decision step identity does not match")
  refuse (approved c.decision && is_none c.result)
      (handoff_policy "an approved decision requires a discovered result")
  ok c
