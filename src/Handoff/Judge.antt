-- ===== src/Handoff/Judge.antt =====
-- delta/handoff.py: the verdicts on a candidate that was found, and the decision that they give.
pub mod Decide
pub mod Checks
use delta_agent.Common.{
  String, Bool, true, false, not, ◌&&◌, ◌||◌, Option, none, some, List, [], ◌∷◌, str_eq,
  if◌then◌else◌,
}
use delta_agent.Common.Result.{Result, ok, err, Error, ◌>>=◌}
use delta_agent.Common.Text.{◌⧺◌}
use delta_agent.Core.Value.{DateTime}
use delta_agent.Core.Platform
use delta_agent.Core.Platform.{Platform}
use delta_agent.Core.Schema.{
  Scope, scope_eq, AgentPrincipal, ExternalExposure, internal_only, shareable, settled, unsettled,
  unknown, ExternalJobSettlement, ExternalJobRef, WorkProvenance,
}
use delta_agent.Core.Work.{Step, WorkResult, is_fresh, artifact_usable}
use delta_agent.Core.Workflow.{member}
use delta_agent.Handoff.Policy.{
  InheritancePolicy, ProviderRule, any_provider, same_provider, provider_allowlist,
  ExternalExposureRule, internal_allowed, shareable_only, for_category,
}
use delta_agent.Handoff.Verdict.{
  Verdict, HandoffVerdicts, ValidityStatus, valid, invalid, TrustStatus, trusted, untrusted,
  AuthorizationStatus, authorized, unauthorized, ExternalJobStatus, not_applicable, safe,
  reconciliation_required, unsafe, is_valid, is_trusted, is_authorized, is_satisfied, is_unsafe,
}
use delta_agent.Handoff.Decision.{DecisionKind, reuse, rerun, pending_dependency, blocked, and_then}
use delta_agent.Handoff.Discovery.{HandoffRequest}

abbrev pub verdict : {S : Type 0} → S → String → String → Verdict S
verdict s code reason = record { status = s; reason_code = code; reason = reason }

-- `_validity_verdict`
unfoldable pub validity_verdict :
    HandoffRequest → Step → String → WorkResult → Bool → DateTime → Verdict ValidityStatus
validity_verdict request step signature result matched_signature now =
    if not (str_eq result.status "completed")
    then verdict invalid "WORK_NOT_COMPLETED"
        "The persisted record does not represent completed work."
    else if not (scope_eq result.scope request.scope)
    then verdict invalid "PROJECT_SCOPE_MISMATCH"
        "The persisted work belongs to a different project scope."
    else if not (str_eq result.workflow_id request.workflow.id)
    then verdict invalid "WORKFLOW_MISMATCH" "The persisted work belongs to a different workflow."
    else if not (str_eq result.step_id step.id)
    then verdict invalid "STEP_MISMATCH" "The persisted work belongs to a different step."
    else if not (str_eq result.implementation_id step.implementation_id)
    then verdict invalid "IMPLEMENTATION_MISMATCH"
        "The step implementation identity changed since this work completed."
    else if not matched_signature || not (str_eq result.input_signature signature)
    then verdict invalid "INPUT_SIGNATURE_MISMATCH"
        "The effective input changed, so this result no longer describes the requested work."
    else if not (is_fresh result now)
    then verdict invalid "RESULT_EXPIRED" "The result is outside its declared freshness policy."
    else if not (artifact_usable result.artifact)
    then verdict invalid "ARTIFACT_UNAVAILABLE"
        "The referenced artifact is unavailable, so the result cannot be reused."
    else verdict valid "VALID_MATCHING_RESULT"
        "A completed result matches this project, step, implementation, input, and freshness policy."

abbrev pub trust_of : Option WorkProvenance → WorkResult → String → Verdict TrustStatus
trust_of none result expected =
    verdict untrusted "PROVENANCE_MISSING"
      "The record carries no source agent or session provenance, so it is not inheritable."
trust_of (some p) result expected =
    if not (str_eq expected result.output_signature)
    then verdict untrusted "OUTPUT_SIGNATURE_MISMATCH"
        "The stored output does not match its recorded signature."
    else verdict trusted "PROVENANCE_COMPLETE"
        "The record identifies its source agent, session, provider, and declared work category."

abbrev pub trust_checked :
    Platform → Option WorkProvenance → WorkResult → Result (Verdict TrustStatus)
trust_checked platform none result = ok (trust_of none result "")
trust_checked platform (some p) result = do
  expected ← Platform.output_signature platform result.output
  ok (trust_of (some p) result expected)

-- `_trust_verdict`: the signature is computed only where there is provenance.
unfoldable pub trust_verdict : Platform → WorkResult → Result (Verdict TrustStatus)
trust_verdict platform result = trust_checked platform result.provenance result

abbrev pub listed : Option (List String) → String → Bool
listed none x = true
listed (some xs) x = member x xs

-- policy.provider_allowlist or ()
abbrev pub listed_provider : Option (List String) → String → Bool
listed_provider none x = false
listed_provider (some xs) x = member x xs

abbrev pub is_shareable : ExternalExposure → Bool
is_shareable shareable = true
is_shareable internal_only = false

abbrev pub exposure_blocked : ExternalExposureRule → ExternalExposure → Bool
exposure_blocked shareable_only e = not (is_shareable e)
exposure_blocked internal_allowed e = false

abbrev pub exposure_verdict : InheritancePolicy → WorkProvenance → Verdict AuthorizationStatus
exposure_verdict policy p =
    if exposure_blocked policy.external_exposure_rule p.external_exposure
    then verdict unauthorized "EXTERNAL_EXPOSURE_BLOCKED"
        "This work is declared internal only and the receiving context may expose content externally."
    else verdict authorized "POLICY_AUTHORIZED" (
        "Inheritance policy " ⧺ policy.policy_id
        ⧺ " authorizes this recipient, provider, and exposure level.")

-- The tests on `policy.provider_rule`.
abbrev pub provider_verdict :
    ProviderRule → InheritancePolicy → WorkProvenance → AgentPrincipal → Verdict AuthorizationStatus
provider_verdict any_provider policy p recipient = exposure_verdict policy p
provider_verdict same_provider policy p recipient =
    if not (str_eq recipient.provider_id p.source_provider_id)
    then verdict unauthorized "PROVIDER_RULE_SAME_PROVIDER_VIOLATED"
        "This work may only be inherited by an agent on the same runtime provider."
    else exposure_verdict policy p
provider_verdict provider_allowlist policy p recipient =
    if not (listed_provider policy.allowed_providers recipient.provider_id)
    then verdict unauthorized "PROVIDER_NOT_ALLOWLISTED"
        "The receiving agent's provider is not on the policy provider allowlist."
    else exposure_verdict policy p

abbrev pub policy_verdict :
    Option InheritancePolicy
    → HandoffRequest
    → WorkResult
    → WorkProvenance
    → Verdict AuthorizationStatus
policy_verdict none request result p =
    verdict unauthorized "NO_POLICY_FOR_WORK_CATEGORY"
      "No inheritance policy authorizes this declared work category."
policy_verdict (some policy) request result p =
    if not (scope_eq policy.project_scope result.scope)
    then verdict unauthorized "POLICY_PROJECT_MISMATCH"
        "The policy governs a different owning project than this work."
    else if not (scope_eq policy.recipient_scope request.scope)
    then verdict unauthorized "RECIPIENT_PROJECT_MISMATCH"
        "The policy does not authorize this receiving project scope."
    else if not (listed policy.agent_allowlist request.recipient.agent_id)
    then verdict unauthorized "RECIPIENT_AGENT_NOT_ALLOWED"
        "The receiving agent is not on the inheritance allowlist for this work."
    else provider_verdict policy.provider_rule policy p request.recipient

abbrev pub authorization_of :
    Option WorkProvenance → HandoffRequest → WorkResult → TrustStatus → Verdict AuthorizationStatus
authorization_of none request result trust =
    verdict AuthorizationStatus.unevaluated "AUTHORIZATION_REQUIRES_TRUSTED_PROVENANCE"
      "Authorization is not evaluated for a record without trusted provenance."
authorization_of (some p) request result trust =
    if not (is_trusted trust)
    then verdict AuthorizationStatus.unevaluated "AUTHORIZATION_REQUIRES_TRUSTED_PROVENANCE"
        "Authorization is not evaluated for a record without trusted provenance."
    else policy_verdict (for_category request.policies (some p.work_category)) request result p

-- `_authorization_verdict`
unfoldable pub authorization_verdict :
    HandoffRequest → WorkResult → Verdict TrustStatus → Verdict AuthorizationStatus
authorization_verdict request result trust =
    authorization_of result.provenance request result trust.status

module _ (platform : Platform) where
  open platform use {int_text}

  abbrev pub settlement_verdict : ExternalJobSettlement → ExternalJobRef → Verdict ExternalJobStatus
  settlement_verdict settled job = verdict safe "EXTERNAL_JOB_SETTLED" (
      "External job "
      ⧺ job.job_id
      ⧺ " is recorded as settled on chain "
      ⧺ int_text job.chain_id
      ⧺ ".")
  settlement_verdict ExternalJobSettlement.reconciliation_required job =
      verdict reconciliation_required "EXTERNAL_JOB_RECONCILIATION_REQUIRED"
        ("External job " ⧺ job.job_id ⧺ " must be reconciled before its work can be inherited.")
  settlement_verdict unsettled job =
      verdict unsafe "EXTERNAL_JOB_UNSETTLED"
        ("External job " ⧺ job.job_id ⧺ " is not settled, so its work is not safe to inherit.")
  settlement_verdict unknown job =
      verdict reconciliation_required "EXTERNAL_JOB_STATE_UNKNOWN"
        ("External job " ⧺ job.job_id ⧺ " has an unknown settlement state and must be reconciled.")

  abbrev pub job_verdict : Option ExternalJobRef → Verdict ExternalJobStatus
  job_verdict none =
      verdict not_applicable "NO_EXTERNAL_JOB" "No external paid job is attached to this work."
  job_verdict (some job) = settlement_verdict job.settlement_state job

  -- `_external_job_verdict`
  unfoldable pub external_job_verdict : WorkResult → Verdict ExternalJobStatus
  external_job_verdict result = job_verdict (and_then result.provenance (λ p. p.external_job))

abbrev pub is_no_candidate : ValidityStatus → Bool
is_no_candidate ValidityStatus.no_candidate = true
is_no_candidate _ = false

-- `_decide`: the decision, its reason code and its reason.
unfoldable pub decide : HandoffVerdicts → DecisionKind × String × String
decide v =
    if not (is_satisfied v.dependency.status)
    then (pending_dependency, "PENDING_DEPENDENCY_OUTPUT", v.dependency.reason)
    else if is_unsafe v.external_job.status
    then (blocked, "BLOCKED_" ⧺ v.external_job.reason_code, v.external_job.reason)
    else if is_no_candidate v.validity.status
    then (rerun, "RERUN_NO_CANDIDATE_WORK", v.validity.reason)
    else if not (is_valid v.validity.status)
    then (rerun, "RERUN_" ⧺ v.validity.reason_code, v.validity.reason)
    else if not (is_trusted v.trust.status)
    then (blocked, "BLOCKED_" ⧺ v.trust.reason_code, v.trust.reason)
    else if not (is_authorized v.authorization.status)
    then (blocked, "BLOCKED_" ⧺ v.authorization.reason_code, v.authorization.reason)
    else (
      reuse, "REUSE_APPROVED_BY_POLICY",
      "The result is valid, trusted, authorized, dependency-safe, and externally safe.",
    )
