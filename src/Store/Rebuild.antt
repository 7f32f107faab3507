-- ===== src/Store/Rebuild.antt =====
-- delta/handoff.py: decisions read back from their payloads, `_decode_decision`.
use delta_agent.Store.Decode.{identifier_of}
use delta_agent.Store.Plans.{currency_from, kind_of, amount_from}
use delta_agent.Common.Text.{◌⧺◌}
use delta_agent.Core.Schema.{check_cost, CostEstimate}
use delta_agent.Core.Platform.{Platform}
use delta_agent.Common.Dict.{lookup, Dict}
use delta_agent.Store.Fields.{
  bool_or, object_of, item, object_or_null, get_or_null, loose_text, text_or,
}
use delta_agent.Handoff.Verdict.{
  unsafe, invalid, safe, untrusted, pending, unauthorized, authorized, valid, satisfied, trusted,
  not_applicable, DependencyStatus, TrustStatus, AuthorizationStatus, ExternalJobStatus, Verdict,
  ValidityStatus, HandoffVerdicts,
}
use delta_agent.Handoff.Decision.{check_decision, HandoffDecision, WorkEvidence}
use delta_agent.Handoff.Policy
use delta_agent.Common.{ℤ, String, Bool, Option, none, some, [], ◌∷◌}
use delta_agent.Common.Result.{
  type_error, Result, ok, err, value_error, handoff_policy, ◌>>=◌, ◌>>◌,
}
use delta_agent.Core.Value.{Value, Entries, null, str}

-- `_identifier` of delta/handoff.py, on a stored value
abbrev pub policy_identifier_of : Value → String → Result String
policy_identifier_of v label = do
  s ← text_or (handoff_policy (label ⧺ " must be a non-empty trimmed string")) v
  Policy.identifier s label
  ok s

module _ {S : Type 0} where
  abbrev pub status_at : Option S → Result S
  status_at none = err (value_error "not a valid status")
  status_at (some s) = ok s

  -- status_type(value), for the members of the enumeration by their values
  unfoldable pub status_of : Dict S → Value → Result S
  status_of members (str s) = status_at (lookup s members)
  status_of members v = err (value_error "not a valid status")

  -- One round of the loop of `_decode_verdicts`.
  unfoldable pub verdict_fields : Dict S → Entries → Result (Verdict S)
  verdict_fields members es = do
    stored ← item "status" es
    status ← status_of members stored
    reason_code ← item "reason_code" es
    reason ← item "reason" es
    code ← policy_identifier_of reason_code "reason_code"
    why ← policy_identifier_of reason "reason"
    ok (record { status = status; reason_code = code; reason = why })

  abbrev pub verdict_at : Dict S → String → Entries → Result (Verdict S)
  verdict_at members name es = do
    v ← item name es
    fields ← object_of v
    verdict_fields members fields

abbrev pub validity_members : Dict ValidityStatus
validity_members =
    ("valid", valid)
    ∷ ("invalid", invalid)
    ∷ ("no_candidate", ValidityStatus.no_candidate)
    ∷ ("unevaluated", ValidityStatus.unevaluated)
    ∷ []

abbrev pub trust_members : Dict TrustStatus
trust_members =
    ("trusted", trusted)
    ∷ ("untrusted", untrusted)
    ∷ ("no_candidate", TrustStatus.no_candidate)
    ∷ ("unevaluated", TrustStatus.unevaluated)
    ∷ []

abbrev pub authorization_members : Dict AuthorizationStatus
authorization_members =
    ("authorized", authorized)
    ∷ ("unauthorized", unauthorized)
    ∷ ("no_candidate", AuthorizationStatus.no_candidate)
    ∷ ("unevaluated", AuthorizationStatus.unevaluated)
    ∷ []

abbrev pub dependency_members : Dict DependencyStatus
dependency_members = ("satisfied", satisfied) ∷ ("pending", pending) ∷ []

abbrev pub job_members : Dict ExternalJobStatus
job_members =
    ("not_applicable", not_applicable)
    ∷ ("safe", safe)
    ∷ ("reconciliation_required", ExternalJobStatus.reconciliation_required)
    ∷ ("unsafe", unsafe)
    ∷ ("unevaluated", ExternalJobStatus.unevaluated)
    ∷ []

-- `_decode_verdicts`
unfoldable pub decode_verdicts : Entries → Result HandoffVerdicts
decode_verdicts es = do
  validity ← verdict_at validity_members "validity" es
  trust ← verdict_at trust_members "trust" es
  authorization ← verdict_at authorization_members "authorization" es
  dependency ← verdict_at dependency_members "dependency" es
  external_job ← verdict_at job_members "external_job" es
  ok (record {
    validity = validity;
    trust = trust;
    authorization = authorization;
    dependency = dependency;
    external_job = external_job;
  })

abbrev pub loose_flag : Value → Result (Option Bool)
loose_flag null = ok none
loose_flag (Value.bool b) = ok (some b)
loose_flag v = err (type_error "a boolean was expected")

abbrev pub loose_number : Value → Result (Option ℤ)
loose_number null = ok none
loose_number (Value.int n) = ok (some n)
loose_number v = err (type_error "a number was expected")

abbrev pub text_at : String → Entries → Result (Option String)
text_at k es = loose_text (get_or_null k es)

-- `_decode_evidence`: no field is checked
unfoldable pub decode_evidence : Entries → Result WorkEvidence
decode_evidence es = do
  record_key ← text_at "record_key" es
  output_signature ← text_at "output_signature" es
  artifact_id ← text_at "artifact_id" es
  artifact_hash ← text_at "artifact_hash" es
  artifact_available ← loose_flag (get_or_null "artifact_available" es)
  source_agent_id ← text_at "source_agent_id" es
  source_session_id ← text_at "source_session_id" es
  source_provider_id ← text_at "source_provider_id" es
  work_category ← text_at "work_category" es
  external_exposure ← text_at "external_exposure" es
  external_job_provider_id ← text_at "external_job_provider_id" es
  external_job_id ← text_at "external_job_id" es
  external_job_chain_id ← loose_number (get_or_null "external_job_chain_id" es)
  external_job_settlement ← text_at "external_job_settlement" es
  external_job_transaction_hash ← text_at "external_job_transaction_hash" es
  completed_at ← text_at "completed_at" es
  fresh_until ← text_at "fresh_until" es
  ok (record {
    record_key = record_key;
    output_signature = output_signature;
    artifact_id = artifact_id;
    artifact_hash = artifact_hash;
    artifact_available = artifact_available;
    source_agent_id = source_agent_id;
    source_session_id = source_session_id;
    source_provider_id = source_provider_id;
    work_category = work_category;
    external_exposure = external_exposure;
    external_job_provider_id = external_job_provider_id;
    external_job_id = external_job_id;
    external_job_chain_id = external_job_chain_id;
    external_job_settlement = external_job_settlement;
    external_job_transaction_hash = external_job_transaction_hash;
    completed_at = completed_at;
    fresh_until = fresh_until;
  })

module _ (platform : Platform) where
  unfoldable pub decode_cost_fields : Entries → Result CostEstimate
  decode_cost_fields es = do
    let amount = get_or_null "amount" es
    currency ← item "currency" es
    source ← item "source" es
    sum ← amount_from platform amount
    unit ← currency_from platform currency
    origin ← identifier_of source "source"
    check_cost platform
        (record { amount = sum; currency = unit; source = origin; quoted_at = none })

  abbrev pub decode_cost_when : Option Entries → Result (Option CostEstimate)
  decode_cost_when none = ok none
  decode_cost_when (some es) = do c ← decode_cost_fields es; ok (some c)

  -- `_decode_cost`
  unfoldable pub decode_cost : Value → Result (Option CostEstimate)
  decode_cost v = do o ← object_or_null v; decode_cost_when o

  -- `_decode_decision`
  unfoldable pub decode_decision : Entries → Result HandoffDecision
  decode_decision es = do
    step_id ← item "step_id" es
    stored ← item "decision" es
    kind ← kind_of stored
    reason_code ← item "reason_code" es
    reason ← item "reason" es
    verdict_item ← item "verdicts" es
    verdict_object ← object_of verdict_item
    verdicts ← decode_verdicts verdict_object
    found ← item "found_candidate" es
    evidence_item ← item "evidence" es
    evidence_object ← object_of evidence_item
    evidence ← decode_evidence evidence_object
    cost ← decode_cost (get_or_null "estimated_cost" es)
    step ← policy_identifier_of step_id "step_id"
    code ← policy_identifier_of reason_code "reason_code"
    why ← policy_identifier_of reason "reason"
    found_candidate ← bool_or (type_error "a boolean was expected") found
    signed ← text_at "input_signature" es
    check_decision (record {
      step_id = step;
      decision = kind;
      reason_code = code;
      reason = why;
      verdicts = verdicts;
      found_candidate = found_candidate;
      evidence = evidence;
      input_signature = signed;
      estimated_cost = cost;
    })
