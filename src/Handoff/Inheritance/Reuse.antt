-- ===== src/Handoff/Inheritance/Reuse.antt =====
-- When the gate of delta/handoff.py reuses a result that was found.
use delta_agent.Common.{
  String, Bool, true, not, Option, none, some, List, ◌≡◌, ◌≢◌, refl, sym, ap, ◌∙◌, ◌↔◌, subst,
  arith, eq_iff, and_iff,
}
use delta_agent.Common.Result.{ok}
use delta_agent.Core.Value.{DateTime}
use delta_agent.Core.Platform.{Platform}
use delta_agent.Core.Schema.{scope_eq_iff, ExternalExposure, ExternalJobRef, WorkProvenance}
use delta_agent.Core.Work.{
  Step, ArtifactReference, WorkResult, is_fresh, before_expiry, artifact_usable,
}
use delta_agent.Core.Workflow.Members.{member→Elem, Elem→member}
use delta_agent.Handoff.Policy.{
  InheritancePolicy, ProviderRule, any_provider, same_provider, provider_allowlist,
  ExternalExposureRule, internal_allowed, shareable_only, for_category,
}
use delta_agent.Handoff.Verdict.{
  HandoffVerdicts, DependencyStatus, ExternalJobStatus, approves_inheritance, valid, trusted,
  authorized, is_safe,
}
use delta_agent.Handoff.Decision.{reuse, and_then, HandoffCandidate}
use delta_agent.Handoff.Discovery.{HandoffRequest}
use delta_agent.Handoff.Judge.{
  listed, listed_provider, exposure_blocked, external_job_verdict, job_verdict,
}
use delta_agent.Handoff.Judge.Decide.{decide-reuse_iff}
use delta_agent.Handoff.Judge.Checks.{
  valid_tests, valid-tests, tests-valid, trusted-intact, intact-trusted, complete, policy_tests,
  provider_tests, authorized-tests, tests-authorized_of_trusted,
}
use delta_agent.Handoff.Candidate.{evaluate_candidate}
use delta_agent.Handoff.Candidate.Judged.{
  IsJudged, judge-IsJudged, IsFound, found_candidate-IsFound,
}
use delta_agent.Handoff.Inheritance.{
  IsUnexpired, IsAvailable, Admits, Lists, AdmitsProvider, AdmitsExposure, IsSettled, IsCurrent,
  IsPermitted, MayInherit,
}

IsUnexpired-iff :
    (now : DateTime) (until : Option DateTime)
    → (before_expiry until now ≡ true) ↔ IsUnexpired now until
IsUnexpired-iff now none = (λ _. tt, λ _. refl)
IsUnexpired-iff now (some until) = (λ h. ground arith, λ h. ground arith)

IsAvailable-iff : (a : Option ArtifactReference) → (artifact_usable a ≡ true) ↔ IsAvailable a
IsAvailable-iff none = (λ _. tt, λ _. refl)
IsAvailable-iff (some a) = (λ h. h, λ h. h)

Admits-iff :
    (agents : Option (List String)) (a : String) → (listed agents a ≡ true) ↔ Admits agents a
Admits-iff none a = (λ _. tt, λ _. refl)
Admits-iff (some agents) a = (member→Elem a agents, Elem→member a agents)

Lists-iff :
    (providers : Option (List String)) (a : String)
    → (listed_provider providers a ≡ true) ↔ Lists providers a
Lists-iff none a = (λ h. cc, λ h. elim h [ ])
Lists-iff (some providers) a = (member→Elem a providers, Elem→member a providers)

AdmitsProvider-iff :
    (rule : ProviderRule) (policy : InheritancePolicy) (p : WorkProvenance) (a : String)
    → (provider_tests rule policy p a ≡ true)
      ↔ AdmitsProvider rule policy.allowed_providers p.source_provider_id a
AdmitsProvider-iff any_provider policy p a = (λ _. tt, λ _. refl)
AdmitsProvider-iff same_provider policy p a = eq_iff a p.source_provider_id
AdmitsProvider-iff provider_allowlist policy p a = Lists-iff policy.allowed_providers a

AdmitsExposure-iff :
    (rule : ExternalExposureRule) (e : ExternalExposure)
    → (not (exposure_blocked rule e) ≡ true) ↔ AdmitsExposure rule e
AdmitsExposure-iff internal_allowed e = (λ _. tt, λ _. refl)
AdmitsExposure-iff shareable_only e = (ground arith, ground arith)

pub IsSettled-iff :
    (platform : Platform) (job : Option ExternalJobRef)
    → (is_safe (job_verdict platform job).status ≡ true) ↔ IsSettled job
IsSettled-iff platform none = (λ _. tt, λ _. refl)
IsSettled-iff platform (some job) = (ground arith, ground arith)

job_evaluated :
    (platform : Platform) (job : Option ExternalJobRef)
    → (job_verdict platform job).status ≢ ExternalJobStatus.unevaluated
job_evaluated platform none = λ h. cc
job_evaluated platform (some job) = ground arith

approved_parts :
    (v : HandoffVerdicts)
    → approves_inheritance v ≡ true
    → (v.validity.status ≡ valid)
      × (v.trust.status ≡ trusted)
      × (v.authorization.status ≡ authorized)
      × (is_safe v.external_job.status ≡ true)
      × (v.dependency.status ≡ DependencyStatus.satisfied)
unfolding approves_inheritance
approved_parts v h = (ground arith, ground arith, ground arith, ground arith, ground arith)

approves_of_parts :
    (v : HandoffVerdicts)
    → v.validity.status ≡ valid
    → v.trust.status ≡ trusted
    → v.authorization.status ≡ authorized
    → is_safe v.external_job.status ≡ true
    → v.dependency.status ≡ DependencyStatus.satisfied
    → approves_inheritance v ≡ true
unfolding approves_inheritance
approves_of_parts v a b c d e = ground arith

module _ (platform : Platform) (request : HandoffRequest) (step : Step) (signature : String)
    (r : WorkResult) (matched : Bool) (now : DateTime) where
  pub IsCurrent-iff :
      (valid_tests request step signature r matched now ≡ true)
      ↔ IsCurrent platform request step signature r matched now
  unfolding is_fresh
  IsCurrent-iff =
      let all = and_iff _ _ (eq_iff r.status "completed") (
        and_iff _ _ (scope_eq_iff r.scope request.scope) (
          and_iff _ _ (eq_iff r.workflow_id request.workflow.id) (
            and_iff _ _ (eq_iff r.step_id step.id) (
              and_iff _ _ (eq_iff r.implementation_id step.implementation_id) (
                and_iff {P = matched ≡ true} matched _ (λ h. h, λ h. h)
                  (and_iff _ _ (eq_iff r.input_signature signature) (
                    and_iff _ _ (IsUnexpired-iff now r.fresh_until)
                      (IsAvailable-iff r.artifact)))))))) in
      (
        λ h.
            let t = all.0 h in
            record {
              completed = t.0;
              scope = t.1.0;
              workflow = t.1.1.0;
              step_of = t.1.1.1.0;
              implementation = t.1.1.1.1.0;
              found = t.1.1.1.1.1.0;
              input = t.1.1.1.1.1.1.0;
              fresh = t.1.1.1.1.1.1.1.0;
              artifact = t.1.1.1.1.1.1.1.1;
            },
        λ c. all.1 (
          c.completed,
          (
            c.scope,
            (
              c.workflow,
              (c.step_of, (c.implementation, (c.found, (c.input, (c.fresh, c.artifact))))),
            ),
          ),
        ),
      )

  IsPermitted-iff :
      (p : WorkProvenance) (policy : InheritancePolicy)
      → for_category request.policies (some p.work_category) ≡ some policy
      → (policy_tests request r p policy ≡ true)
        ↔ IsPermitted platform request step signature r matched now p policy
  IsPermitted-iff p policy governs =
      let all = and_iff _ _ (scope_eq_iff policy.project_scope r.scope) (
        and_iff _ _ (scope_eq_iff policy.recipient_scope request.scope) (
          and_iff _ _ (Admits-iff policy.agent_allowlist request.recipient.agent_id) (
            and_iff _ _
              (AdmitsProvider-iff policy.provider_rule policy p request.recipient.provider_id)
              (AdmitsExposure-iff policy.external_exposure_rule p.external_exposure)))) in
      (
        λ h.
            let t = all.0 h in
            record {
              governs = governs;
              owner = t.0;
              recipient = t.1.0;
              agent = t.1.1.0;
              provider = t.1.1.1.0;
              exposure = t.1.1.1.1;
            },
        λ q. all.1 (q.owner, (q.recipient, (q.agent, (q.provider, q.exposure)))),
      )

  module _ (c : HandoffCandidate)
      (returned : evaluate_candidate platform request step signature (some r) matched now
        ≡ ok c) where
    pub found : IsFound platform request step signature r matched now c
    unfolding evaluate_candidate
    found = found_candidate-IsFound platform request step signature r matched now c returned

    pub judged : IsJudged platform request step signature r matched now found.verdicts
    judged =
        judge-IsJudged platform request step signature r matched now found.verdicts found.judged

    pub evaluated : found.verdicts.external_job.status ≢ ExternalJobStatus.unevaluated
    unfolding external_job_verdict
    evaluated =
        rw judged.external_job
          (job_evaluated platform (and_then r.provenance (λ p. p.external_job)))

    job_at :
        (p : WorkProvenance)
        → r.provenance ≡ some p
        → found.verdicts.external_job ≡ job_verdict platform p.external_job
    unfolding external_job_verdict
    job_at p e =
        judged.external_job
        ∙ ap
            (λ (o : Option WorkProvenance). job_verdict platform (and_then o (λ q. q.external_job)))
            e

    reuse-MayInherit :
        c.decision.decision ≡ reuse → MayInherit platform request step signature r matched now
    unfolding external_job_verdict
    reuse-MayInherit h =
        let parts =
          approved_parts found.verdicts
            ((decide-reuse_iff found.verdicts evaluated).0 (sym found.kind ∙ h)) in
        let (p, recorded, intact) = trusted-intact platform r judged.trust parts.1 in
        let (policy, governs, tests) =
          authorized-tests request r p found.verdicts.trust recorded
            (ap (λ v. v.status) (sym judged.authorization) ∙ parts.2) in
        record {
          current = IsCurrent-iff.0 (
              valid-tests request step signature r matched now
                (ap (λ v. v.status) (sym judged.validity) ∙ parts.0));
          provenance = p;
          recorded = recorded;
          intact = intact;
          policy = policy;
          permitted = (IsPermitted-iff p policy governs).0 tests;
          job =
              (IsSettled-iff platform p.external_job).0
                (subst (λ w. is_safe w.status ≡ true) (job_at p recorded) parts.3);
        }

    MayInherit-reuse :
        MayInherit platform request step signature r matched now → c.decision.decision ≡ reuse
    MayInherit-reuse m =
        let p = m.provenance in
        let whole : found.verdicts.trust ≡ complete =
          cc (judged.trust, intact-trusted platform r p m.recorded m.intact) in
        let trust_status = ap (λ v. v.status) whole in
        found.kind
        ∙ (decide-reuse_iff found.verdicts evaluated).1 (
            approves_of_parts found.verdicts
              (ap (λ v. v.status) judged.validity
                ∙ tests-valid request step signature r matched now (IsCurrent-iff.1 m.current))
              trust_status
              (ap (λ v. v.status) judged.authorization
                ∙ tests-authorized_of_trusted request r p m.policy found.verdicts.trust m.recorded
                    trust_status m.permitted.governs
                    ((IsPermitted-iff p m.policy m.permitted.governs).1 m.permitted))
              (subst (λ w. is_safe w.status ≡ true) (sym (job_at p m.recorded))
                ((IsSettled-iff platform p.external_job).1 m.job))
              (ap (λ v. v.status) judged.dependency))

-- For a result that was found, the candidate that `_evaluate_candidate` returns is reused exactly
-- when the work may be inherited: it is complete, of this scope, workflow, step, implementation and
-- input, unexpired, available, of recorded provenance and intact output, permitted by the policy of
-- its category, and of no unsettled external job.
pub evaluate_candidate-reuse_iff :
    (platform : Platform) (request : HandoffRequest) (step : Step) (signature : String)
    (r : WorkResult) (matched : Bool) (now : DateTime) (c : HandoffCandidate)
    → evaluate_candidate platform request step signature (some r) matched now ≡ ok c
    → (c.decision.decision ≡ reuse) ↔ MayInherit platform request step signature r matched now
evaluate_candidate-reuse_iff platform request step signature r matched now c returned = (
  reuse-MayInherit platform request step signature r matched now c returned,
  MayInherit-reuse platform request step signature r matched now c returned,
)
