-- ===== src/Handoff/Judge/Checks.antt =====
-- What each verdict of delta/handoff.py has tested when it is the favourable one.
use delta_agent.Common.{
  String, Bool, true, not, ◌&&◌, Option, none, some, ◌≡◌, refl, sym, subst, ◌↔◌, arith, eq_iff,
  str_eq,
}
use mathlib.Core.Option.{some-injective}
use delta_agent.Common.Result.{Result, ok, err, ◌>>=◌}
use delta_agent.Core.Value.{DateTime}
use delta_agent.Core.Platform
use delta_agent.Core.Platform.{Platform}
use delta_agent.Core.Schema.{scope_eq, AgentPrincipal, WorkProvenance}
use delta_agent.Core.Work.{Step, WorkResult, is_fresh, artifact_usable}
use delta_agent.Handoff.Policy.{
  InheritancePolicy, ProviderRule, any_provider, same_provider, provider_allowlist, for_category,
}
use delta_agent.Handoff.Verdict.{Verdict, valid, TrustStatus, trusted, authorized}
use delta_agent.Handoff.Discovery.{HandoffRequest}
use delta_agent.Handoff.Judge.{
  validity_verdict, trust_verdict, trust_checked, trust_of, authorization_verdict, authorization_of,
  policy_verdict, provider_verdict, exposure_blocked, listed, listed_provider,
}

-- The eight tests of a valid result, in one Boolean.
abbrev pub valid_tests : HandoffRequest → Step → String → WorkResult → Bool → DateTime → Bool
valid_tests request step signature r matched now =
    str_eq r.status "completed"
    && (scope_eq r.scope request.scope
        && (str_eq r.workflow_id request.workflow.id
            && (str_eq r.step_id step.id
                && (str_eq r.implementation_id step.implementation_id
                    && (matched
                        && (str_eq r.input_signature signature
                            && (is_fresh r now && artifact_usable r.artifact)))))))

module _ (request : HandoffRequest) (step : Step) (signature : String) (r : WorkResult)
    (matched : Bool) (now : DateTime) where
  pub valid-tests :
      (validity_verdict request step signature r matched now).status ≡ valid
      → valid_tests request step signature r matched now ≡ true
  unfolding validity_verdict
  valid-tests h = ground arith

  pub tests-valid :
      valid_tests request step signature r matched now ≡ true
      → (validity_verdict request step signature r matched now).status ≡ valid
  unfolding validity_verdict
  tests-valid h = ground arith

module _ (platform : Platform) (r : WorkResult) {v : Verdict TrustStatus} where
  checked-trusted :
      (prov : Option WorkProvenance)
      → trust_checked platform prov r ≡ ok v
      → v.status ≡ trusted
      → (p : WorkProvenance) × (prov ≡ some p)
        × (Platform.output_signature platform r.output ≡ ok r.output_signature)
  checked-trusted none h k = cc
  checked-trusted (some p) h k = (p, refl, go (Platform.output_signature platform r.output) h)
    where
      go :
          (s : Result String)
          → (s >>= λ expected. ok (trust_of (some p) r expected)) ≡ ok v
          → s ≡ ok r.output_signature
      go (ok s) e = ground (arith, eq_iff s r.output_signature)
      go (err e) h = cc

  -- A trusted record has provenance, and its output has the signature that it states.
  pub trusted-intact :
      trust_verdict platform r ≡ ok v
      → v.status ≡ trusted
      → (p : WorkProvenance) × (r.provenance ≡ some p)
        × (Platform.output_signature platform r.output ≡ ok r.output_signature)
  unfolding trust_verdict
  trusted-intact h k = checked-trusted r.provenance h k

abbrev pub complete : Verdict TrustStatus
complete = record {
  status = trusted;
  reason_code = "PROVENANCE_COMPLETE";
  reason = "The record identifies its source agent, session, provider, and declared work category.";
}

module _ (platform : Platform) (r : WorkResult) (p : WorkProvenance) where
  checked-intact :
      (prov : Option WorkProvenance) (s : Result String)
      → Platform.output_signature platform r.output ≡ s
      → prov ≡ some p
      → s ≡ ok r.output_signature
      → trust_checked platform prov r ≡ ok complete
  checked-intact none s e h k = cc
  checked-intact (some q) (err x) e h k = cc
  checked-intact (some q) (ok s) e h k = rw e (ground (arith, eq_iff s r.output_signature))

  pub intact-trusted :
      r.provenance ≡ some p
      → Platform.output_signature platform r.output ≡ ok r.output_signature
      → trust_verdict platform r ≡ ok complete
  unfolding trust_verdict
  intact-trusted h k = checked-intact r.provenance _ refl h k

abbrev pub provider_tests : ProviderRule → InheritancePolicy → WorkProvenance → String → Bool
provider_tests any_provider policy p provider = true
provider_tests same_provider policy p provider = str_eq provider p.source_provider_id
provider_tests provider_allowlist policy p provider =
    listed_provider policy.allowed_providers provider

-- The tests of an authorizing policy, in one Boolean.
abbrev pub policy_tests : HandoffRequest → WorkResult → WorkProvenance → InheritancePolicy → Bool
policy_tests request r p policy =
    scope_eq policy.project_scope r.scope
    && (scope_eq policy.recipient_scope request.scope
        && (listed policy.agent_allowlist request.recipient.agent_id
            && (provider_tests policy.provider_rule policy p request.recipient.provider_id
                && not (exposure_blocked policy.external_exposure_rule p.external_exposure))))

module _ (p : WorkProvenance) where
  provider-authorized_iff :
      (rule : ProviderRule) (policy : InheritancePolicy) (a : AgentPrincipal)
      → ((provider_verdict rule policy p a).status ≡ authorized) ↔ (
          (provider_tests rule policy p a.provider_id
            && not (exposure_blocked policy.external_exposure_rule p.external_exposure))
          ≡ true)
  provider-authorized_iff any_provider policy a = (ground arith, ground arith)
  provider-authorized_iff same_provider policy a = (ground arith, ground arith)
  provider-authorized_iff provider_allowlist policy a = (ground arith, ground arith)

  module _ (request : HandoffRequest) (r : WorkResult) where
    policy-authorized :
        (found : Option InheritancePolicy)
        → (policy_verdict found request r p).status ≡ authorized
        → (policy : InheritancePolicy) × (found ≡ some policy)
          × (policy_tests request r p policy ≡ true)
    policy-authorized none h = cc
    policy-authorized (some policy) h = (
      policy,
      refl,
      ground (arith, (provider-authorized_iff policy.provider_rule policy request.recipient).0),
    )

    tests-authorized :
        (policy : InheritancePolicy)
        → policy_tests request r p policy ≡ true
        → (policy_verdict (some policy) request r p).status ≡ authorized
    tests-authorized policy h =
        ground (arith, (provider-authorized_iff policy.provider_rule policy request.recipient).1)

module _ (request : HandoffRequest) (r : WorkResult) (p : WorkProvenance) where
  of-tests :
      (prov : Option WorkProvenance) (status : TrustStatus)
      → prov ≡ some p
      → (authorization_of prov request r status).status ≡ authorized
      → (policy : InheritancePolicy) × (for_category request.policies (some p.work_category)
          ≡ some policy)
        × (policy_tests request r p policy ≡ true)
  of-tests none status e k = cc
  of-tests (some q) trusted e k = policy-authorized p request r _ (
      subst
        (λ w.
          (policy_verdict (for_category request.policies (some w.work_category)) request r w).status
          ≡ authorized)
        (some-injective q p e) k)
  of-tests (some q) status e k = cc

  -- Authorization rests on the policy of the declared work category.
  pub authorized-tests :
      (trust : Verdict TrustStatus)
      → r.provenance ≡ some p
      → (authorization_verdict request r trust).status ≡ authorized
      → (policy : InheritancePolicy) × (for_category request.policies (some p.work_category)
          ≡ some policy)
        × (policy_tests request r p policy ≡ true)
  unfolding authorization_verdict
  authorized-tests trust h k = of-tests r.provenance trust.status h k

  tests-of :
      (policy : InheritancePolicy) (prov : Option WorkProvenance) (status : TrustStatus)
      → prov ≡ some p
      → status ≡ trusted
      → for_category request.policies (some p.work_category) ≡ some policy
      → policy_tests request r p policy ≡ true
      → (authorization_of prov request r status).status ≡ authorized
  tests-of policy none status e s f h = cc
  tests-of policy (some q) trusted e s f h =
      subst
        (λ w.
          (policy_verdict (for_category request.policies (some w.work_category)) request r w).status
          ≡ authorized)
        (sym (some-injective q p e)) (rw f (tests-authorized p request r policy h))
  tests-of policy (some q) status e s f h = cc

  pub tests-authorized_of_trusted :
      (policy : InheritancePolicy) (trust : Verdict TrustStatus)
      → r.provenance ≡ some p
      → trust.status ≡ trusted
      → for_category request.policies (some p.work_category) ≡ some policy
      → policy_tests request r p policy ≡ true
      → (authorization_verdict request r trust).status ≡ authorized
  unfolding authorization_verdict
  tests-authorized_of_trusted policy trust e s f h =
      tests-of policy r.provenance trust.status e s f h
