-- ===== src/Handoff/Verdict.antt =====
-- delta/handoff.py: the five verdicts on a candidate.
use delta_agent.Common.{String, Bool, true, false, ◌&&◌, [], ◌∷◌}
use delta_agent.Common.Result.{Result, ok, ◌>>◌}
use delta_agent.Core.Value
use delta_agent.Core.Value.{Value, str}
use delta_agent.Handoff.Policy.{identifier}

pub data ValidityStatus : Type 0 where
  valid invalid no_candidate unevaluated : ValidityStatus

pub data TrustStatus : Type 0 where
  trusted untrusted no_candidate unevaluated : TrustStatus

pub data AuthorizationStatus : Type 0 where
  authorized unauthorized no_candidate unevaluated : AuthorizationStatus

pub data DependencyStatus : Type 0 where
  satisfied pending : DependencyStatus

pub data ExternalJobStatus : Type 0 where
  not_applicable safe reconciliation_required unsafe unevaluated : ExternalJobStatus

abbrev pub validity_text : ValidityStatus → String
validity_text valid = "valid"
validity_text invalid = "invalid"
validity_text ValidityStatus.no_candidate = "no_candidate"
validity_text ValidityStatus.unevaluated = "unevaluated"

abbrev pub trust_text : TrustStatus → String
trust_text trusted = "trusted"
trust_text untrusted = "untrusted"
trust_text TrustStatus.no_candidate = "no_candidate"
trust_text TrustStatus.unevaluated = "unevaluated"

abbrev pub authorization_text : AuthorizationStatus → String
authorization_text authorized = "authorized"
authorization_text unauthorized = "unauthorized"
authorization_text AuthorizationStatus.no_candidate = "no_candidate"
authorization_text AuthorizationStatus.unevaluated = "unevaluated"

abbrev pub dependency_text : DependencyStatus → String
dependency_text satisfied = "satisfied"
dependency_text pending = "pending"

abbrev pub job_status_text : ExternalJobStatus → String
job_status_text not_applicable = "not_applicable"
job_status_text safe = "safe"
job_status_text reconciliation_required = "reconciliation_required"
job_status_text unsafe = "unsafe"
job_status_text ExternalJobStatus.unevaluated = "unevaluated"

-- One verdict; the class of its status is a parameter, so five verdicts cannot be mixed up.
pub record Verdict (S : Type 0) : Type 0 where
  pub status : S
  pub reason_code : String
  pub reason : String

module _ {S : Type 0} where
  unfoldable pub check_verdict : Verdict S → Result (Verdict S)
  check_verdict v = do identifier v.reason_code "reason_code"; identifier v.reason "reason"; ok v

  abbrev pub verdict_payload : (S → String) → Verdict S → Value
  verdict_payload text v = Value.object (
      ("status", str (text v.status))
      ∷ ("reason_code", str v.reason_code)
      ∷ ("reason", str v.reason)
      ∷ [])

pub record HandoffVerdicts : Type 0 where
  pub validity : Verdict ValidityStatus
  pub trust : Verdict TrustStatus
  pub authorization : Verdict AuthorizationStatus
  pub dependency : Verdict DependencyStatus
  pub external_job : Verdict ExternalJobStatus

unfoldable pub verdicts_payload : HandoffVerdicts → Value
verdicts_payload v = Value.object (
    ("validity", verdict_payload validity_text v.validity)
    ∷ ("trust", verdict_payload trust_text v.trust)
    ∷ ("authorization", verdict_payload authorization_text v.authorization)
    ∷ ("dependency", verdict_payload dependency_text v.dependency)
    ∷ ("external_job", verdict_payload job_status_text v.external_job)
    ∷ [])

abbrev pub is_valid : ValidityStatus → Bool
is_valid valid = true
is_valid _ = false

abbrev pub is_trusted : TrustStatus → Bool
is_trusted trusted = true
is_trusted _ = false

abbrev pub is_authorized : AuthorizationStatus → Bool
is_authorized authorized = true
is_authorized _ = false

abbrev pub is_satisfied : DependencyStatus → Bool
is_satisfied satisfied = true
is_satisfied pending = false

-- status in {NOT_APPLICABLE, SAFE}
abbrev pub is_safe : ExternalJobStatus → Bool
is_safe not_applicable = true
is_safe safe = true
is_safe _ = false

-- status in {RECONCILIATION_REQUIRED, UNSAFE}
abbrev pub is_unsafe : ExternalJobStatus → Bool
is_unsafe reconciliation_required = true
is_unsafe unsafe = true
is_unsafe _ = false

unfoldable pub approves_inheritance : HandoffVerdicts → Bool
approves_inheritance v =
    is_satisfied v.dependency.status
    && is_safe v.external_job.status
    && is_trusted v.trust.status
    && is_authorized v.authorization.status
    && is_valid v.validity.status
