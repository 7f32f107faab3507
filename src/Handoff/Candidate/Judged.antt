-- ===== src/Handoff/Candidate/Judged.antt =====
-- `_evaluate_candidate` of delta/handoff.py, taken apart: what a candidate says when it is returned.
use delta_agent.Common.{String, Bool, Option, some, ◌≡◌, ap, ◌∙◌, arith}
use delta_agent.Common.Result.{ok, >>=-eq-ok}
use delta_agent.Core.Value.{DateTime}
use delta_agent.Core.Platform.{Platform}
use delta_agent.Core.Work.{Step, WorkResult}
use delta_agent.Handoff.Verdict.{Verdict, HandoffVerdicts, check_verdict}
use delta_agent.Handoff.Decision.{
  HandoffDecision, check_decision, HandoffCandidate, check_candidate,
}
use delta_agent.Handoff.Discovery.{HandoffRequest}
use delta_agent.Handoff.Judge.{
  validity_verdict, trust_verdict, authorization_verdict, external_job_verdict, decide,
}
use delta_agent.Handoff.Candidate.{
  candidate_of, dependency_satisfied, record_key, judge, found_candidate,
}

pub check_verdict-eq : {S : Type 0} (v w : Verdict S) → check_verdict v ≡ ok w → w ≡ v
unfolding check_verdict
check_verdict-eq v w h = ground arith

pub check_decision-eq : (d e : HandoffDecision) → check_decision d ≡ ok e → e ≡ d
unfolding check_decision
check_decision-eq d e h = ground arith

pub check_candidate-eq : (c d : HandoffCandidate) → check_candidate c ≡ ok d → d ≡ c
unfolding check_candidate
check_candidate-eq c d h = ground arith

-- A candidate is returned as it was put together.
pub candidate_of-eq :
    (d : HandoffDecision) (r : Option WorkResult) (c : HandoffCandidate)
    → candidate_of d r ≡ ok c
    → c ≡ record { step_id = d.step_id; result = r; decision = d }
candidate_of-eq d r c h =
    let (e, checked, rest) = >>=-eq-ok (check_decision d) _ h in
    check_candidate-eq _ c rest
    ∙ ap (λ (x : HandoffDecision). record { step_id = d.step_id; result = r; decision = x })
        (check_decision-eq d e checked)

module _ (platform : Platform) (request : HandoffRequest) (step : Step) (signature : String)
    (r : WorkResult) (matched : Bool) (now : DateTime) where
  -- Where each verdict of `judge` comes from.
  pub record IsJudged (v : HandoffVerdicts) : Type 0 where
    pub validity : v.validity ≡ validity_verdict request step signature r matched now
    pub trust : trust_verdict platform r ≡ ok v.trust
    pub authorization : v.authorization ≡ authorization_verdict request r v.trust
    pub external_job : v.external_job ≡ external_job_verdict platform r
    pub dependency : v.dependency ≡ dependency_satisfied platform

  pub judge-IsJudged :
      (v : HandoffVerdicts)
      → judge platform request step signature r matched now ≡ ok v
      → IsJudged v
  unfolding judge
  judge-IsJudged v h =
      let (w, hw, h1) =
        >>=-eq-ok (check_verdict (validity_verdict request step signature r matched now)) _ h in
      let (u, hu, h2) = >>=-eq-ok (trust_verdict platform r) _ h1 in
      let (t, ht, h3) = >>=-eq-ok (check_verdict u) _ h2 in
      let (a, ha, h4) = >>=-eq-ok (check_verdict (authorization_verdict request r t)) _ h3 in
      let (e, he, h5) = >>=-eq-ok (check_verdict (external_job_verdict platform r)) _ h4 in
      record {
        validity = cc (check_verdict-eq _ w hw);
        trust = cc (check_verdict-eq u t ht);
        authorization = cc (check_verdict-eq _ a ha);
        external_job = cc (check_verdict-eq _ e he);
        dependency = cc;
      }

  pub record IsFound (c : HandoffCandidate) : Type 0 where
    pub verdicts : HandoffVerdicts
    pub judged : judge platform request step signature r matched now ≡ ok verdicts
    pub decision_of : c.decision.step_id ≡ step.id
    pub result : c.result ≡ some r
    pub verdicts_of : c.decision.verdicts ≡ verdicts
    pub kind : c.decision.decision ≡ (decide verdicts).0

  pub found_candidate-IsFound :
      (c : HandoffCandidate)
      → found_candidate platform request step signature r matched now ≡ ok c
      → IsFound c
  unfolding found_candidate
  found_candidate-IsFound c h =
      let (key, hk, h1) = >>=-eq-ok (record_key platform request r.step_id r.input_signature) _ h in
      let (v, hv, h2) = >>=-eq-ok (judge platform request step signature r matched now) _ h1 in
      let e = candidate_of-eq _ (some r) c h2 in
      record {
        verdicts = v;
        judged = hv;
        decision_of = ap (λ (x : HandoffCandidate). x.decision.step_id) e;
        result = ap (λ (x : HandoffCandidate). x.result) e;
        verdicts_of = ap (λ (x : HandoffCandidate). x.decision.verdicts) e;
        kind = ap (λ (x : HandoffCandidate). x.decision.decision) e;
      }
