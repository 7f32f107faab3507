-- ===== src/Handoff/Inheritance.antt =====
-- When work may be inherited: a specification of the gate of delta/handoff.py in its own terms.
pub mod Reuse
pub mod Rerun
use delta_agent.Common.{
  ℕ, ◌<◌, String, Bool, true, false, Option, none, some, List, ◌≡◌, ◌≢◌, refl, sym, ap, ◌∙◌, ◌↔◌,
  subst, arith,
}
use delta_agent.Common.Result.{Result, ok}
use delta_agent.Core.Value.{DateTime}
use delta_agent.Core.Platform
use delta_agent.Core.Platform.{Platform}
use delta_agent.Core.Schema.{settled, shareable, ExternalExposure, ExternalJobRef, WorkProvenance}
use delta_agent.Core.Work.{Step, ArtifactReference, WorkResult}
use delta_agent.Core.Workflow.Members.{Elem}
use delta_agent.Handoff.Policy.{
  InheritancePolicy, ProviderRule, any_provider, same_provider, provider_allowlist,
  ExternalExposureRule, internal_allowed, shareable_only, for_category,
}
use delta_agent.Handoff.Discovery.{HandoffRequest}

abbrev pub IsUnexpired : DateTime → Option DateTime → Type 0
IsUnexpired now none = Unit
IsUnexpired now (some until) = now < until

abbrev pub IsAvailable : Option ArtifactReference → Type 0
IsAvailable none = Unit
IsAvailable (some a) = a.available ≡ true

abbrev pub Admits : Option (List String) → String → Type 0
Admits none agent = Unit
Admits (some agents) agent = Elem agent agents

abbrev pub Lists : Option (List String) → String → Type 0
Lists none provider = ⊥
Lists (some providers) provider = Elem provider providers

-- The provider rule of a policy, for work of `source` and a recipient that runs on `provider`.
abbrev pub AdmitsProvider : ProviderRule → Option (List String) → String → String → Type 0
AdmitsProvider any_provider providers source provider = Unit
AdmitsProvider same_provider providers source provider = provider ≡ source
AdmitsProvider provider_allowlist providers source provider = Lists providers provider

abbrev pub AdmitsExposure : ExternalExposureRule → ExternalExposure → Type 0
AdmitsExposure internal_allowed exposure = Unit
AdmitsExposure shareable_only exposure = exposure ≡ shareable

abbrev pub IsSettled : Option ExternalJobRef → Type 0
IsSettled none = Unit
IsSettled (some job) = job.settlement_state ≡ settled

module _ (platform : Platform) (request : HandoffRequest) (step : Step) (signature : String)
    (r : WorkResult) (matched : Bool) (now : DateTime) where
  -- The work is what the step asks for, and it is still good.
  pub record IsCurrent : Type 0 where
    pub completed : r.status ≡ "completed"
    pub scope : r.scope ≡ request.scope
    pub workflow : r.workflow_id ≡ request.workflow.id
    pub step_of : r.step_id ≡ step.id
    pub implementation : r.implementation_id ≡ step.implementation_id
    pub found : matched ≡ true
    pub input : r.input_signature ≡ signature
    pub fresh : IsUnexpired now r.fresh_until
    pub artifact : IsAvailable r.artifact

  -- A policy lets the recipient have work of this provenance.
  pub record IsPermitted (p : WorkProvenance) (policy : InheritancePolicy) : Type 0 where
    pub governs : for_category request.policies (some p.work_category) ≡ some policy
    pub owner : policy.project_scope ≡ r.scope
    pub recipient : policy.recipient_scope ≡ request.scope
    pub agent : Admits policy.agent_allowlist request.recipient.agent_id
    pub provider :
        AdmitsProvider policy.provider_rule policy.allowed_providers p.source_provider_id
          request.recipient.provider_id
    pub exposure : AdmitsExposure policy.external_exposure_rule p.external_exposure

  pub record MayInherit : Type 0 where
    pub current : IsCurrent
    pub provenance : WorkProvenance
    pub recorded : r.provenance ≡ some provenance
    pub intact : Platform.output_signature platform r.output ≡ ok r.output_signature
    pub policy : InheritancePolicy
    pub permitted : IsPermitted provenance policy
    pub job : IsSettled provenance.external_job
