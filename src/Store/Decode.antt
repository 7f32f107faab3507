-- ===== src/Store/Decode.antt =====
-- delta/store.py: records read back from their JSON objects. The fields are read first, in the
-- order of the source, and then checked as the constructor of the class checks them.
use delta_agent.Common.{false, is_positive, String, Option, none, some, ℤ, str_eq, if◌then◌else◌}
use delta_agent.Common.Result.{
  Result, ok, err, Error, delta_validation, persistence_error, value_error, key_error, ◌>>=◌, ◌>>◌,
  require,
}
use delta_agent.Common.Text.{◌⧺◌}
use delta_agent.Core.Value.{Value, Entries, DateTime, null, str, dict}
use delta_agent.Core.Platform.{Platform}
use delta_agent.Core.Schema.{
  Scope, identifier, ExternalExposure, internal_only, shareable, ExternalJobSettlement, settled,
  reconciliation_required, unsettled, unknown, ExternalJobRef, check_job, WorkProvenance,
  check_provenance,
}
use delta_agent.Core.Work.{ArtifactReference, check_artifact, WorkResult, check_work_result}
use delta_agent.Core.Attempt.{ExecutionAttempt, check_attempt}
use delta_agent.Store.Fields
use delta_agent.Store.Fields.{
  item, get_or_null, object_or_null, loose_text, text_or, int_or, bool_or, parse_timestamp,
}

-- The error of `_identifier` for a value that is no text.
abbrev pub not_identifier : String → Error
not_identifier label = delta_validation (label ⧺ " must be a non-empty trimmed string")

-- `_identifier(value, label)`
abbrev pub identifier_of : Value → String → Result String
identifier_of v label = do s ← text_or (not_identifier label) v; identifier s label; ok s

abbrev pub optional_identifier_of : Value → String → Result (Option String)
optional_identifier_of null label = ok none
optional_identifier_of v label = do s ← identifier_of v label; ok (some s)

abbrev pub positive_or : Error → Value → Result ℤ
positive_or e v = do n ← int_or e v; require (is_positive n) e; ok n

abbrev pub optional_positive_or : Error → Value → Result (Option ℤ)
optional_positive_or e null = ok none
optional_positive_or e v = do n ← positive_or e v; ok (some n)

-- ExternalJobSettlement(value)
unfoldable pub settlement_of : Value → Result ExternalJobSettlement
settlement_of (str s) =
    if str_eq s "settled"
    then ok settled
    else if str_eq s "reconciliation_required"
    then ok reconciliation_required
    else if str_eq s "unsettled"
    then ok unsettled
    else if str_eq s "unknown"
    then ok unknown
    else err (value_error "not a valid ExternalJobSettlement")
settlement_of _ = err (value_error "not a valid ExternalJobSettlement")

-- ExternalExposure(payload["external_exposure"]), where both errors are replaced
unfoldable pub exposure_of : Option Value → Result ExternalExposure
exposure_of (some (str s)) =
    if str_eq s "internal_only"
    then ok internal_only
    else if str_eq s "shareable"
    then ok shareable
    else err (persistence_error "persisted provenance has an unknown external exposure declaration")
exposure_of _ =
    err (persistence_error "persisted provenance has an unknown external exposure declaration")

-- `_external_job_from_payload`
unfoldable pub job_fields : Entries → Result ExternalJobRef
job_fields es = do
  provider_id ← item "provider_id" es
  job_id ← item "job_id" es
  chain_id ← item "chain_id" es
  state ← item "settlement_state" es
  settlement_state ← settlement_of state
  let transaction_hash = get_or_null "transaction_hash" es
  provider ← identifier_of provider_id "external job provider_id"
  job ← identifier_of job_id "external job job_id"
  chain ← positive_or (delta_validation "external job chain_id must be a positive integer") chain_id
  hash ← optional_identifier_of transaction_hash "external job transaction_hash"
  check_job (record {
    provider_id = provider;
    job_id = job;
    chain_id = chain;
    settlement_state = settlement_state;
    transaction_hash = hash;
  })

abbrev pub job_when : Option Entries → Result (Option ExternalJobRef)
job_when none = ok none
job_when (some es) = do j ← job_fields es; ok (some j)

unfoldable pub job_from_payload : Value → Result (Option ExternalJobRef)
job_from_payload v = do o ← object_or_null v; job_when o

-- `_artifact_from_payload`
unfoldable pub artifact_fields : Entries → Result ArtifactReference
artifact_fields es = do
  artifact_id ← item "artifact_id" es
  content_hash ← item "content_hash" es
  media_type ← item "media_type" es
  byte_size ← item "byte_size" es
  let uri = get_or_null "uri" es
  available ← item "available" es
  id ← identifier_of artifact_id "artifact_id"
  hash ← identifier_of content_hash "content_hash"
  media ← identifier_of media_type "media_type"
  bytes ← int_or (delta_validation "byte_size must be a non-negative integer") byte_size
  location ← loose_text uri
  checked ← check_artifact (record {
    artifact_id = id;
    content_hash = hash;
    media_type = media;
    byte_size = bytes;
    uri = location;
    available = false;
  })
  present ← bool_or (delta_validation "available must be a boolean") available
  ok (record checked { available = present })

abbrev pub artifact_when : Option Entries → Result (Option ArtifactReference)
artifact_when none = ok none
artifact_when (some es) = do a ← artifact_fields es; ok (some a)

unfoldable pub artifact_from_payload : Value → Result (Option ArtifactReference)
artifact_from_payload v = do o ← object_or_null v; artifact_when o

-- except KeyError as error: raise SibylPersistenceError(...)
abbrev pub missing_field {ℓ} : {A : Type ℓ} → Result A → Result A
missing_field (ok a) = ok a
missing_field (err (key_error k)) =
    err (persistence_error "persisted provenance is missing a required field")
missing_field (err e) = err e

module _ (platform : Platform) where
  unfoldable pub provenance_fields : ExternalExposure → Entries → Result WorkProvenance
  provenance_fields exposure es = do
    source_agent_id ← item "source_agent_id" es
    source_session_id ← item "source_session_id" es
    source_provider_id ← item "source_provider_id" es
    work_category ← item "work_category" es
    external_job ← job_from_payload (get_or_null "external_job" es)
    recorded_at ← parse_timestamp platform (get_or_null "recorded_at" es)
    agent ← identifier_of source_agent_id "source_agent_id"
    session ← identifier_of source_session_id "source_session_id"
    provider ← identifier_of source_provider_id "source_provider_id"
    category ← identifier_of work_category "work_category"
    check_provenance (record {
      source_agent_id = agent;
      source_session_id = session;
      source_provider_id = provider;
      work_category = category;
      external_exposure = exposure;
      external_job = external_job;
      recorded_at = recorded_at;
    })

  -- `_provenance_from_payload`
  unfoldable pub provenance_from_payload : Value → Result (Option WorkProvenance)
  provenance_from_payload null = ok none
  provenance_from_payload (dict es) = do
    exposure ← exposure_of (Fields.get "external_exposure" es)
    p ← missing_field (provenance_fields exposure es)
    ok (some p)
  provenance_from_payload _ = err (persistence_error "persisted provenance is not an object")

  -- The `WorkResult` of a payload. `read_time` reads the field completed_at: `get_work_result` and
  -- `list_work_records` differ in it.
  unfoldable pub work_from_payload :
      (Value → Result (Option DateTime)) → Scope → Entries → Result WorkResult
  work_from_payload read_time scope es = do
    workflow_id ← item "workflow_id" es
    step_id ← item "step_id" es
    implementation_id ← item "implementation_id" es
    input_signature ← item "input_signature" es
    output_signature ← item "output_signature" es
    output ← item "output" es
    completed ← item "completed_at" es
    completed_at ← read_time completed
    fresh_until ← parse_timestamp platform (get_or_null "fresh_until" es)
    let attempt_id = get_or_null "successful_attempt_id" es
    artifact ← artifact_from_payload (get_or_null "artifact" es)
    status ← item "status" es
    provenance ← provenance_from_payload (get_or_null "provenance" es)
    workflow ← identifier_of workflow_id "workflow_id"
    step ← identifier_of step_id "step_id"
    implementation ← identifier_of implementation_id "implementation_id"
    input ← identifier_of input_signature "input_signature"
    signed ← identifier_of output_signature "output_signature"
    ended ← text_or (delta_validation "WorkResult must represent completed work") status
    attempt ← loose_text attempt_id
    check_work_result platform (record {
      scope = scope;
      workflow_id = workflow;
      step_id = step;
      implementation_id = implementation;
      input_signature = input;
      output_signature = signed;
      output = output;
      completed_at = completed_at;
      fresh_until = fresh_until;
      successful_attempt_id = attempt;
      artifact = artifact;
      status = ended;
      provenance = provenance;
    })

  abbrev pub required : String → Option DateTime → Result (Option DateTime)
  required label none = err (persistence_error ("persisted record is missing " ⧺ label))
  required label (some t) = ok (some t)

  -- `_require_timestamp(value, label)`
  abbrev pub require_timestamp : String → Value → Result (Option DateTime)
  require_timestamp label v = do t ← parse_timestamp platform v; required label t

-- The `ExecutionAttempt` of a payload.
unfoldable pub attempt_from_payload : Scope → Entries → Result ExecutionAttempt
attempt_from_payload scope es = do
  attempt_id ← item "attempt_id" es
  workflow_id ← item "workflow_id" es
  step_id ← item "step_id" es
  status ← item "status" es
  input_signature ← item "input_signature" es
  attempt ← identifier_of attempt_id "attempt_id"
  workflow ← identifier_of workflow_id "workflow_id"
  step ← identifier_of step_id "step_id"
  state ← identifier_of status "status"
  input ← identifier_of input_signature "input_signature"
  chain ←
      optional_positive_or (delta_validation "provider_chain_id must be a positive integer")
        (get_or_null "provider_chain_id" es)
  provider ← optional_identifier_of (get_or_null "provider_id" es) "provider_id"
  offering ← optional_identifier_of (get_or_null "offering_id" es) "offering_id"
  offering_name ← optional_identifier_of (get_or_null "offering_name" es) "offering_name"
  requirements ←
      optional_identifier_of (get_or_null "requirements_signature" es) "requirements_signature"
  job ← loose_text (get_or_null "provider_job_id" es)
  code ← loose_text (get_or_null "error_code" es)
  check_attempt (record {
    attempt_id = attempt;
    scope = scope;
    workflow_id = workflow;
    step_id = step;
    status = state;
    input_signature = input;
    provider_job_id = job;
    provider_chain_id = chain;
    error_code = code;
    provider_id = provider;
    offering_id = offering;
    offering_name = offering_name;
    requirements_signature = requirements;
  })
