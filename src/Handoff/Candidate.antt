-- ===== src/Handoff/Candidate.antt =====
-- delta/handoff.py: the decision for one step, `_pending_candidate`, `_undecodable_candidate` and
-- `_evaluate_candidate`.
pub mod Judged
pub mod Kinds
use delta_agent.Common.{
  String, Bool, true, false, not, Option, none, some, List, [], ◌∷◌, if◌then◌else◌,
}
use delta_agent.Common.Result.{Result, ok, err, Error, ◌>>=◌}
use delta_agent.Common.Text.{◌⧺◌}
use delta_agent.Common.Dict.{Dict, lookup}
use delta_agent.Core.Value
use delta_agent.Core.Value.{Value, DateTime, str}
use delta_agent.Core.Platform.{Platform, signature}
use delta_agent.Core.Schema.{CostEstimate}
use delta_agent.Core.Work.{Step, WorkResult}
use delta_agent.Core.Workflow.{has_key, extract_dependencies}
use delta_agent.Handoff.Policy.{scope_payload}
use delta_agent.Handoff.Verdict.{
  Verdict, HandoffVerdicts, check_verdict, ValidityStatus, invalid, TrustStatus, untrusted,
  AuthorizationStatus, DependencyStatus, satisfied, pending, ExternalJobStatus, not_applicable,
}
use delta_agent.Handoff.Decision.{
  DecisionKind, reuse, rerun, pending_dependency, blocked, is_reuse, no_evidence, evidence_for,
  WorkEvidence, HandoffDecision, check_decision, HandoffCandidate, check_candidate,
}
use delta_agent.Handoff.Discovery.{HandoffRequest}
use delta_agent.Handoff.Judge.{
  verdict, validity_verdict, trust_verdict, authorization_verdict, external_job_verdict, decide,
}

-- Five verdicts, each checked as it is made, in the order of the source.
abbrev pub five_verdicts :
    Verdict ValidityStatus
    → Verdict TrustStatus
    → Verdict AuthorizationStatus
    → Verdict DependencyStatus
    → Verdict ExternalJobStatus
    → Result HandoffVerdicts
five_verdicts validity trust authorization dependency external_job = do
  v ← check_verdict validity
  t ← check_verdict trust
  a ← check_verdict authorization
  d ← check_verdict dependency
  e ← check_verdict external_job
  ok (record { validity = v; trust = t; authorization = a; dependency = d; external_job = e })

abbrev pub undecodable_verdicts : Result HandoffVerdicts
undecodable_verdicts =
    five_verdicts
      (verdict invalid "RECORD_UNDECODABLE"
        "A persisted record for this step could not be decoded safely.")
      (verdict untrusted "RECORD_UNDECODABLE"
        "A record that cannot be decoded cannot be trusted for inheritance.")
      (verdict AuthorizationStatus.unevaluated "AUTHORIZATION_REQUIRES_TRUSTED_PROVENANCE"
        "Authorization is not evaluated for a record that cannot be decoded.")
      (verdict satisfied "DEPENDENCIES_SATISFIED"
        "Every declared upstream output needed for this step is available.")
      (verdict ExternalJobStatus.unevaluated "EXTERNAL_JOB_REQUIRES_CANDIDATE"
        "External job safety is not evaluated for a record that cannot be decoded.")

-- Checks the decision, then the candidate that carries it.
abbrev pub candidate_of : HandoffDecision → Option WorkResult → Result HandoffCandidate
candidate_of decision result = do
  d ← check_decision decision
  check_candidate (record { step_id = decision.step_id; result = result; decision = d })

-- `_undecodable_candidate`
unfoldable pub undecodable_candidate : Step → String → Result HandoffCandidate
undecodable_candidate step signature = do
  verdicts ← undecodable_verdicts
  candidate_of
      (record {
        step_id = step.id;
        decision = blocked;
        reason_code = "BLOCKED_RECORD_UNDECODABLE";
        reason =
            "A persisted record exists for this step but could not be decoded, so it is withheld.";
        verdicts = verdicts;
        found_candidate = true;
        evidence = no_evidence none;
        input_signature = some signature;
        estimated_cost = step.estimated_cost;
      })
      none

unfoldable pub missing_from : List String → Dict Value → List String
missing_from [] outputs = []
missing_from (d ∷ ds) outputs =
    let rest = missing_from ds outputs in if has_key d outputs then rest else d ∷ rest

abbrev pub pending_verdicts : String → Result HandoffVerdicts
pending_verdicts reason =
    five_verdicts
      (verdict ValidityStatus.unevaluated "VALIDITY_REQUIRES_EFFECTIVE_INPUT"
        "Validity cannot be judged before the effective input is known.")
      (verdict TrustStatus.unevaluated "TRUST_REQUIRES_EFFECTIVE_INPUT"
        "Trust cannot be judged before a candidate is identified.")
      (verdict AuthorizationStatus.unevaluated "AUTHORIZATION_REQUIRES_EFFECTIVE_INPUT"
        "Authorization cannot be judged before a candidate is identified.")
      (verdict pending "DEPENDENCY_OUTPUT_UNAVAILABLE" reason)
      (verdict ExternalJobStatus.unevaluated "EXTERNAL_JOB_REQUIRES_CANDIDATE"
        "External job safety cannot be judged before a candidate is identified.")

abbrev pub no_candidate_verdicts : Result HandoffVerdicts
no_candidate_verdicts =
    five_verdicts
      (verdict ValidityStatus.no_candidate "NO_CANDIDATE_WORK"
        "No persisted work exists for this project, step, and effective input.")
      (verdict TrustStatus.no_candidate "NO_CANDIDATE_WORK"
        "There is no candidate record whose provenance could be trusted.")
      (verdict AuthorizationStatus.no_candidate "NO_CANDIDATE_WORK"
        "There is no candidate record to authorize.")
      (verdict satisfied "DEPENDENCIES_SATISFIED"
        "Every declared upstream output needed for this step is available.")
      (verdict not_applicable "NO_EXTERNAL_JOB" "No external paid job is attached to this step.")

module _ (platform : Platform) where
  open platform use {join_comma}

  abbrev pub pending_reason : List String → String → String
  pending_reason [] detail = detail
  pending_reason (d ∷ ds) detail =
      "Upstream output "
      ⧺ join_comma (d ∷ ds)
      ⧺ " has not crossed the handoff, so this step's effective input is unknown."

  abbrev pub pending_with : Step → String → Result HandoffCandidate
  pending_with step reason = do
    verdicts ← pending_verdicts reason
    candidate_of
        (record {
          step_id = step.id;
          decision = pending_dependency;
          reason_code = "PENDING_DEPENDENCY_OUTPUT";
          reason = reason;
          verdicts = verdicts;
          found_candidate = false;
          evidence = no_evidence none;
          input_signature = none;
          estimated_cost = step.estimated_cost;
        })
        none

  -- `_pending_candidate`
  unfoldable pub pending_candidate : Step → String → Dict Value → Result HandoffCandidate
  pending_candidate step detail inherited =
      pending_with step (pending_reason (missing_from (extract_dependencies step) inherited) detail)

  -- `_record_key`
  unfoldable pub record_key : HandoffRequest → String → String → Result String
  record_key request step_id input_signature =
      signature platform
        (Value.object (
          ("scope", scope_payload request.scope)
          ∷ ("workflow_id", str request.workflow.id)
          ∷ ("step_id", str step_id)
          ∷ ("input_signature", str input_signature)
          ∷ []))
        "work_result"

  -- The branch of `_evaluate_candidate` where nothing was found.
  unfoldable pub rerun_candidate : Step → String → Result HandoffCandidate
  rerun_candidate step signature = do
    verdicts ← no_candidate_verdicts
    candidate_of
        (record {
          step_id = step.id;
          decision = rerun;
          reason_code = "RERUN_NO_CANDIDATE_WORK";
          reason = "No previous work was found for this step, so it must run.";
          verdicts = verdicts;
          found_candidate = false;
          evidence = evidence_for platform none none;
          input_signature = some signature;
          estimated_cost = step.estimated_cost;
        })
        none

  -- None for reused work
  abbrev pub remaining_cost : DecisionKind → Option CostEstimate → Option CostEstimate
  remaining_cost kind cost = if is_reuse kind then none else cost

  abbrev pub decided :
      Step
      → String
      → WorkEvidence
      → HandoffVerdicts
      → DecisionKind × String × String
      → HandoffDecision
  decided step signature evidence verdicts (kind, code, reason) = record {
    step_id = step.id;
    decision = kind;
    reason_code = code;
    reason = reason;
    verdicts = verdicts;
    found_candidate = true;
    evidence = evidence;
    input_signature = some signature;
    estimated_cost = remaining_cost kind step.estimated_cost;
  }

  abbrev pub dependency_satisfied : Verdict DependencyStatus
  dependency_satisfied =
      verdict satisfied "DEPENDENCIES_SATISFIED"
        "Every declared upstream output needed for this step is available."

  -- The verdicts on a result that was found.
  unfoldable pub judge :
      HandoffRequest → Step → String → WorkResult → Bool → DateTime → Result HandoffVerdicts
  judge request step signature result matched_signature now = do
    validity ← check_verdict (validity_verdict request step signature result matched_signature now)
    unchecked ← trust_verdict platform result
    trust ← check_verdict unchecked
    authorization ← check_verdict (authorization_verdict request result trust)
    external_job ← check_verdict (external_job_verdict platform result)
    ok (record {
      validity = validity;
      trust = trust;
      authorization = authorization;
      dependency = dependency_satisfied;
      external_job = external_job;
    })

  unfoldable pub found_candidate :
      HandoffRequest → Step → String → WorkResult → Bool → DateTime → Result HandoffCandidate
  found_candidate request step signature result matched_signature now = do
    key ← record_key request result.step_id result.input_signature
    verdicts ← judge request step signature result matched_signature now
    candidate_of
        (decided step signature (evidence_for platform (some result) (some key)) verdicts
          (decide verdicts))
        (some result)

  -- `_evaluate_candidate`
  unfoldable pub evaluate_candidate :
      HandoffRequest → Step → String → Option WorkResult → Bool → DateTime → Result HandoffCandidate
  evaluate_candidate request step signature none matched_signature now =
      rerun_candidate step signature
  evaluate_candidate request step signature (some result) matched_signature now =
      found_candidate request step signature result matched_signature now
