-- ===== src/Handoff/Gate/Trace.antt =====
-- Work that the gate of delta/handoff.py finds for the effective input of a step, and what the
-- candidate for a step says of it.
use delta_agent.Common.{String, true, false, Option, none, some, ◌≡◌, refl}
use delta_agent.Common.Result.{Result, ok, err, dependency_pending, >>=-eq-ok}
use delta_agent.Common.Dict.{Dict}
use delta_agent.Core.Value.{Value}
use delta_agent.Core.Platform.{Platform}
use delta_agent.Core.Work.{Step, WorkResult}
use delta_agent.Core.Workflow.{input_signature, resolve_step_input}
use delta_agent.Handoff.Decision.{reuse, HandoffCandidate}
use delta_agent.Handoff.Discovery.{find}
use delta_agent.Handoff.Candidate.{evaluate_candidate}
use delta_agent.Handoff.Candidate.Judged.{found_candidate-IsFound}
use delta_agent.Handoff.Candidate.Kinds.{
  undecodable-blocked, pending-pending_dependency, rerun-rerun,
}
use delta_agent.Handoff.Inheritance.{MayInherit}
use delta_agent.Handoff.Inheritance.Reuse.{evaluate_candidate-reuse_iff}
use delta_agent.Handoff.Gate.{
  Loop, fallback_candidate, signed_candidate, resolved_candidate, step_candidate,
}

module _ (platform : Platform) (loop : Loop) (inherited : Dict Value) (step : Step) where
  -- Work that was found under the signature of the step's effective input, as the workflow inputs and
  -- the outputs inherited so far make it.
  pub record IsOffered (work : WorkResult) : Type 0 where
    pub effective : Value
    pub signature : String
    pub resolved : resolve_step_input platform loop.inputs inherited step ≡ ok effective
    pub signed :
        input_signature platform loop.request.scope loop.request.workflow step effective
        ≡ ok signature
    pub found : find step.id signature loop.persisted ≡ some work

  -- Such work that may be inherited.
  pub record IsGiven (work : WorkResult) : Type 0 where
    pub offered : IsOffered work
    pub allowed :
        MayInherit platform loop.request step (IsOffered.signature offered) work true loop.now

  abbrev pub Names : HandoffCandidate → Type 0
  Names c = c.decision.step_id ≡ step.id

  -- A reused candidate carries the work.
  pub record IsTraced (c : HandoffCandidate) : Type 0 where
    pub work : WorkResult
    pub carried : c.result ≡ some work
    pub given : IsGiven work

  module _ (c : HandoffCandidate) where
    abbrev Traced : Type 0
    Traced = Names c × (c.decision.decision ≡ reuse → IsTraced c)

    unmatched-Traced :
        (signature : String) (r : WorkResult)
        → evaluate_candidate platform loop.request step signature (some r) false loop.now ≡ ok c
        → Traced
    unfolding evaluate_candidate
    unmatched-Traced signature r h = (
      (found_candidate-IsFound platform loop.request step signature r false loop.now c
          h).decision_of,
      λ reused.
          let m =
            (evaluate_candidate-reuse_iff platform loop.request step signature r false loop.now c
                h).0
              reused in
          absurd (cc (m.current.found)),
    )

    fallback-Traced :
        (signature : String) (r : Option WorkResult) (corrupt : Option String)
        → fallback_candidate platform loop step signature r corrupt ≡ ok c
        → Traced
    unfolding evaluate_candidate
    fallback-Traced signature (some r) corrupt h = unmatched-Traced signature r h
    fallback-Traced signature none (some reason) h =
        let d = undecodable-blocked step signature c h in (d.1, λ reused. absurd (cc (d.0, reused)))
    fallback-Traced signature none none h =
        let d = rerun-rerun platform step signature c h in
        (d.1, λ reused. absurd (cc (d.0, reused)))

    signed-Traced :
        (effective : Value) (signature : String) (r : Option WorkResult)
        → resolve_step_input platform loop.inputs inherited step ≡ ok effective
        → input_signature platform loop.request.scope loop.request.workflow step effective
          ≡ ok signature
        → find step.id signature loop.persisted ≡ r
        → signed_candidate platform loop step signature r ≡ ok c
        → Traced
    unfolding evaluate_candidate
    signed-Traced effective signature none resolved signed found h = fallback-Traced signature _ _ h
    signed-Traced effective signature (some r) resolved signed found h =
        let f = found_candidate-IsFound platform loop.request step signature r true loop.now c h in
        (
          f.decision_of,
          λ reused. record {
            work = r;
            carried = f.result;
            given = record {
              offered = record {
                effective = effective;
                signature = signature;
                resolved = resolved;
                signed = signed;
                found = found;
              };
              allowed =
                  (evaluate_candidate-reuse_iff platform loop.request step signature r true loop.now
                      c h).0
                    reused;
            };
          },
        )

    resolved-Traced :
        (input : Result Value)
        → resolve_step_input platform loop.inputs inherited step ≡ input
        → resolved_candidate platform loop step inherited input ≡ ok c
        → Traced
    resolved-Traced (ok v) resolved h =
        let (signature, signed, rest) =
          >>=-eq-ok (input_signature platform loop.request.scope loop.request.workflow step v) _
            h in
        signed-Traced v signature (find step.id signature loop.persisted) resolved signed refl rest
    resolved-Traced (err (dependency_pending detail)) resolved h =
        let d = pending-pending_dependency platform step detail inherited c h in
        (d.1, λ reused. absurd (cc (d.0, reused)))
    resolved-Traced (err e) resolved h = cc

    pub step_candidate-Traced :
        step_candidate platform loop step inherited ≡ ok c
        → Names c × (c.decision.decision ≡ reuse → IsTraced c)
    unfolding step_candidate
    step_candidate-Traced h = resolved-Traced _ refl h

    -- Work that may be inherited is.
    pub step_candidate-reuse :
        (work : WorkResult)
        → step_candidate platform loop step inherited ≡ ok c
        → IsGiven work
        → c.decision.decision ≡ reuse
    unfolding step_candidate
    step_candidate-reuse work h g =
        let o = g.offered in
        let k : evaluate_candidate platform loop.request step o.signature (some work) true loop.now
            ≡ ok c =
          rw (o.resolved, o.signed, o.found) at h in
        (evaluate_candidate-reuse_iff platform loop.request step o.signature work true loop.now c
            k).1
          g.allowed
