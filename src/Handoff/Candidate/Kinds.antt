-- ===== src/Handoff/Candidate/Kinds.antt =====
-- The candidates of delta/handoff.py that are built without judging a result: what each decides, and
-- for which step.
use delta_agent.Common.{String, none, ◌≡◌, ap}
use delta_agent.Common.Result.{ok, >>=-eq-ok}
use delta_agent.Common.Dict.{Dict}
use delta_agent.Core.Value.{Value}
use delta_agent.Core.Platform.{Platform}
use delta_agent.Core.Work.{Step}
use delta_agent.Handoff.Decision.{blocked, rerun, pending_dependency, HandoffCandidate}
use delta_agent.Handoff.Candidate.{
  undecodable_verdicts, undecodable_candidate, pending_verdicts, pending_candidate,
  no_candidate_verdicts, rerun_candidate,
}
use delta_agent.Handoff.Candidate.Judged.{candidate_of-eq}

decides :
    {c d : HandoffCandidate}
    → c ≡ d
    → (c.decision.decision ≡ d.decision.decision) × (c.decision.step_id ≡ d.decision.step_id)
decides e = (
  ap (λ (x : HandoffCandidate). x.decision.decision) e,
  ap (λ (x : HandoffCandidate). x.decision.step_id) e,
)

pub undecodable-blocked :
    (step : Step) (signature : String) (c : HandoffCandidate)
    → undecodable_candidate step signature ≡ ok c
    → (c.decision.decision ≡ blocked) × (c.decision.step_id ≡ step.id)
unfolding undecodable_candidate
undecodable-blocked step signature c h =
    let (v, hv, rest) = >>=-eq-ok undecodable_verdicts _ h in
    decides (candidate_of-eq _ none c rest)

module _ (platform : Platform) (step : Step) where
  pub pending-pending_dependency :
      (detail : String) (inherited : Dict Value) (c : HandoffCandidate)
      → pending_candidate platform step detail inherited ≡ ok c
      → (c.decision.decision ≡ pending_dependency) × (c.decision.step_id ≡ step.id)
  unfolding pending_candidate
  pending-pending_dependency detail inherited c h =
      let (v, hv, rest) = >>=-eq-ok (pending_verdicts _) _ h in
      decides (candidate_of-eq _ none c rest)

  pub rerun-rerun :
      (signature : String) (c : HandoffCandidate)
      → rerun_candidate platform step signature ≡ ok c
      → (c.decision.decision ≡ rerun) × (c.decision.step_id ≡ step.id)
  unfolding rerun_candidate
  rerun-rerun signature c h =
      let (v, hv, rest) = >>=-eq-ok no_candidate_verdicts _ h in
      decides (candidate_of-eq _ none c rest)
