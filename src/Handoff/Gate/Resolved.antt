-- ===== src/Handoff/Gate/Resolved.antt =====
-- When the gate of delta/handoff.py waits for a dependency.
use delta_agent.Handoff.Verdict.{satisfied, HandoffVerdicts}
use delta_agent.Handoff.Candidate.{evaluate_candidate}
use delta_agent.Handoff.Judge.{decide}
use delta_agent.Handoff.Inheritance.Reuse.{found, judged}
use delta_agent.Core.Workflow.Complete.{Settles, resolve_step_input-Settles}
use delta_agent.Common.{
  ◌∙◌, sym, none, ap, true, false, some, arith, Bool, Option, ◌↔◌, String, refl, ◌≡◌, ◌≢◌, All,
}
use delta_agent.Common.Result.{>>=-eq-ok, Result, ok, err, dependency_pending}
use delta_agent.Common.Dict.{Dict}
use delta_agent.Core.Value.{Value}
use delta_agent.Core.Platform.{Platform}
use delta_agent.Core.Work.{WorkResult, Step}
use delta_agent.Core.Workflow.{input_signature, references}
use delta_agent.Core.Workflow.Bindings.{IsProvided, resolve_step_input-IsProvided}
use delta_agent.Handoff.Decision.{pending_dependency, HandoffCandidate}
use delta_agent.Handoff.Candidate.Kinds.{
  rerun-rerun, undecodable-blocked, pending-pending_dependency,
}
use delta_agent.Handoff.Gate.{
  fallback_candidate, signed_candidate, Loop, resolved_candidate, step_candidate,
}

module _ (platform : Platform) (loop : Loop) (step : Step) (inherited : Dict Value)
    (c : HandoffCandidate) where
  resolved_input :
      (input : Result Value)
      → resolved_candidate platform loop step inherited input ≡ ok c
      → c.decision.decision ≢ pending_dependency
      → (v : Value) × (input ≡ ok v)
  resolved_input (ok v) h other = (v, refl)
  resolved_input (err (dependency_pending detail)) h other =
      absurd (other (pending-pending_dependency platform step detail inherited c h).0)
  resolved_input (err e) h other = cc

-- Work that was judged never waits: its dependencies are satisfied.
decide-satisfied :
    (v : HandoffVerdicts) → v.dependency.status ≡ satisfied → (decide v).0 ≢ pending_dependency
unfolding decide
decide-satisfied v h = ground arith

module _ (platform : Platform) (loop : Loop) (step : Step) (c : HandoffCandidate) where
  found-decides :
      (signature : String) (r : WorkResult) (matched : Bool)
      → evaluate_candidate platform loop.request step signature (some r) matched loop.now ≡ ok c
      → c.decision.decision ≢ pending_dependency
  found-decides signature r matched h e =
      let f = found platform loop.request step signature r matched loop.now c h in
      let j = judged platform loop.request step signature r matched loop.now c h in
      decide-satisfied f.verdicts (ap (λ v. v.status) j.dependency) (sym f.kind ∙ e)

  fallback-decides :
      (signature : String) (r : Option WorkResult) (corrupt : Option String)
      → fallback_candidate platform loop step signature r corrupt ≡ ok c
      → c.decision.decision ≢ pending_dependency
  unfolding evaluate_candidate
  fallback-decides signature (some r) corrupt h e = found-decides signature r false h e
  fallback-decides signature none (some reason) h e =
      cc ((undecodable-blocked step signature c h).0, e)
  fallback-decides signature none none h e = cc ((rerun-rerun platform step signature c h).0, e)

  signed-decides :
      (signature : String) (r : Option WorkResult)
      → signed_candidate platform loop step signature r ≡ ok c
      → c.decision.decision ≢ pending_dependency
  signed-decides signature (some r) h = found-decides signature r true h
  signed-decides signature none h = fallback-decides signature _ _ h

  resolved-decides :
      (inherited : Dict Value) (input : Result Value)
      → resolved_candidate platform loop step inherited input ≡ ok c
      → Settles input
      → c.decision.decision ≢ pending_dependency
  resolved-decides inherited (ok v) h settled =
      let (signature, hs, rest) =
        >>=-eq-ok (input_signature platform loop.request.scope loop.request.workflow step v) _ h in
      signed-decides signature _ rest
  resolved-decides inherited (err (dependency_pending detail)) h settled =
      absurd (settled detail refl)
  resolved-decides inherited (err e) h settled = cc

-- The gate gives a step another decision than pending exactly where every workflow input that the step
-- refers to is among the inputs of the request, and every step output that it refers to is among the
-- outputs inherited so far.
pub step_candidate-IsProvided_iff :
    (platform : Platform) (loop : Loop) (step : Step) (inherited : Dict Value)
    (c : HandoffCandidate)
    → step_candidate platform loop step inherited ≡ ok c
    → (c.decision.decision ≢ pending_dependency)
      ↔ All (IsProvided platform loop.inputs inherited) (references step)
unfolding step_candidate
step_candidate-IsProvided_iff platform loop step inherited c h = (
  λ other.
      let (v, resolved) = resolved_input platform loop step inherited c _ h other in
      resolve_step_input-IsProvided platform loop.inputs inherited step v resolved,
  λ provided.
      resolved-decides platform loop step c inherited _ h
        (resolve_step_input-Settles platform loop.inputs inherited step provided),
)
