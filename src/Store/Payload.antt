-- ===== src/Store/Payload.antt =====
-- delta/store.py: the JSON objects that are written for each record.
use delta_agent.Common.{String, Option, none, some, [], ◌∷◌, map}
use delta_agent.Core.Value
use delta_agent.Core.Value.{Value, Entries, null, bool, int, str, dict}
use delta_agent.Core.Platform.{Platform}
use delta_agent.Core.Schema.{
  Scope, CostEstimate, ExternalExposure, internal_only, shareable, ExternalJobSettlement, settled,
  reconciliation_required, unsettled, unknown, ExternalJobRef, WorkProvenance,
}
use delta_agent.Core.Work.{ArtifactReference, WorkResult}
use delta_agent.Core.Attempt.{ExecutionAttempt, ExecutionEvent}
use delta_agent.Core.Plan.{StepDecision, RevisionPlan, kind_text}
use delta_agent.Store.Fields.{scope_fields, timestamp}

abbrev pub scope_value : Scope → Value
scope_value scope = dict (scope_fields scope)

-- `_artifact_payload`
unfoldable pub artifact_payload : ArtifactReference → Entries
artifact_payload a = Value.entries_of (
    ("artifact_id", str a.artifact_id)
    ∷ ("content_hash", str a.content_hash)
    ∷ ("media_type", str a.media_type)
    ∷ ("byte_size", int a.byte_size)
    ∷ ("uri", Value.optional str a.uri)
    ∷ ("available", bool a.available)
    ∷ [])

abbrev pub settlement_value : ExternalJobSettlement → String
settlement_value settled = "settled"
settlement_value reconciliation_required = "reconciliation_required"
settlement_value unsettled = "unsettled"
settlement_value unknown = "unknown"

abbrev pub exposure_value : ExternalExposure → String
exposure_value internal_only = "internal_only"
exposure_value shareable = "shareable"

-- `_external_job_payload`
unfoldable pub external_job_payload : ExternalJobRef → Entries
external_job_payload j = Value.entries_of (
    ("provider_id", str j.provider_id)
    ∷ ("job_id", str j.job_id)
    ∷ ("chain_id", int j.chain_id)
    ∷ ("settlement_state", str (settlement_value j.settlement_state))
    ∷ ("transaction_hash", Value.optional str j.transaction_hash)
    ∷ [])

module _ (platform : Platform) where
  -- `_cost_payload`
  unfoldable pub stored_cost : Option CostEstimate → Value
  stored_cost none = null
  stored_cost (some c) = Value.object (
      ("amount", Value.optional str c.amount)
      ∷ ("currency", str c.currency)
      ∷ ("source", str c.source)
      ∷ ("quoted_at", timestamp platform c.quoted_at)
      ∷ [])

  -- `_provenance_payload`
  unfoldable pub provenance_payload : WorkProvenance → Entries
  provenance_payload p = Value.entries_of (
      ("record_version", str "1")
      ∷ ("source_agent_id", str p.source_agent_id)
      ∷ ("source_session_id", str p.source_session_id)
      ∷ ("source_provider_id", str p.source_provider_id)
      ∷ ("work_category", str p.work_category)
      ∷ ("external_exposure", str (exposure_value p.external_exposure))
      ∷ ("external_job", Value.optional (λ j. dict (external_job_payload j)) p.external_job)
      ∷ ("recorded_at", timestamp platform p.recorded_at)
      ∷ [])

  -- The payload of `save_work_result`.
  unfoldable pub work_payload : WorkResult → Entries
  work_payload r = Value.entries_of (
      ("record_type", str "delta.work_result.v1")
      ∷ ("scope", scope_value r.scope)
      ∷ ("workflow_id", str r.workflow_id)
      ∷ ("step_id", str r.step_id)
      ∷ ("implementation_id", str r.implementation_id)
      ∷ ("input_signature", str r.input_signature)
      ∷ ("output_signature", str r.output_signature)
      ∷ ("output", r.output)
      ∷ ("completed_at", timestamp platform r.completed_at)
      ∷ ("fresh_until", timestamp platform r.fresh_until)
      ∷ ("successful_attempt_id", Value.optional str r.successful_attempt_id)
      ∷ ("artifact", Value.optional (λ a. dict (artifact_payload a)) r.artifact)
      ∷ ("status", str r.status)
      ∷ ("provenance", Value.optional (λ p. dict (provenance_payload p)) r.provenance)
      ∷ [])

  -- The payload of `save_attempt`.
  unfoldable pub attempt_payload : ExecutionAttempt → Entries
  attempt_payload a = Value.entries_of (
      ("record_type", str "delta.execution_attempt.v1")
      ∷ ("scope", scope_value a.scope)
      ∷ ("attempt_id", str a.attempt_id)
      ∷ ("workflow_id", str a.workflow_id)
      ∷ ("step_id", str a.step_id)
      ∷ ("status", str a.status)
      ∷ ("input_signature", str a.input_signature)
      ∷ ("provider_job_id", Value.optional str a.provider_job_id)
      ∷ ("provider_chain_id", Value.optional int a.provider_chain_id)
      ∷ ("error_code", Value.optional str a.error_code)
      ∷ ("provider_id", Value.optional str a.provider_id)
      ∷ ("offering_id", Value.optional str a.offering_id)
      ∷ ("offering_name", Value.optional str a.offering_name)
      ∷ ("requirements_signature", Value.optional str a.requirements_signature)
      ∷ [])

  -- The field `extra` of `append_event`.
  unfoldable pub event_payload : ExecutionEvent → Entries
  event_payload e = Value.entries_of (
      ("record_type", str "delta.execution_event.v1")
      ∷ ("scope", scope_value e.scope)
      ∷ ("event_id", str e.event_id)
      ∷ ("attempt_id", str e.attempt_id)
      ∷ ("reason_code", str e.reason_code)
      ∷ ("state", str e.state)
      ∷ ("detail", str e.detail)
      ∷ ("recorded_at", timestamp platform (some e.recorded_at))
      ∷ [])

  abbrev pub stored_decision : StepDecision → Value
  stored_decision d = Value.object (
      ("step_id", str d.step_id)
      ∷ ("decision", str (kind_text d.decision))
      ∷ ("reason_code", str d.reason_code)
      ∷ ("reason", str d.reason)
      ∷ ("effective_input", Value.optional (λ v. v) d.effective_input)
      ∷ ("input_signature", Value.optional str d.input_signature)
      ∷ ("estimated_cost", stored_cost d.estimated_cost)
      ∷ [])

  -- The payload of `save_plan`.
  unfoldable pub plan_payload : RevisionPlan → Entries
  plan_payload p = Value.entries_of (
      ("record_type", str "delta.revision_plan.v1")
      ∷ ("scope", scope_value p.scope)
      ∷ ("plan_id", str p.plan_id)
      ∷ ("workflow_id", str p.workflow_id)
      ∷ ("workflow_version", str p.workflow_version)
      ∷ ("decisions", Value.array (map stored_decision p.decisions))
      ∷ [])
