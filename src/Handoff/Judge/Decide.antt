-- ===== src/Handoff/Judge/Decide.antt =====
-- `_decide` of delta/handoff.py: when the five verdicts let work be reused.
use delta_agent.Common.{true, ◌≡◌, ◌≢◌, ◌↔◌, arith}
use delta_agent.Handoff.Verdict.{HandoffVerdicts, ExternalJobStatus, approves_inheritance}
use delta_agent.Handoff.Decision.{reuse}
use delta_agent.Handoff.Judge.{decide}

-- Where external job safety has been evaluated, `_decide` answers reuse exactly when every verdict
-- approves.
pub decide-reuse_iff :
    (v : HandoffVerdicts)
    → v.external_job.status ≢ ExternalJobStatus.unevaluated
    → ((decide v).0 ≡ reuse) ↔ (approves_inheritance v ≡ true)
unfolding decide approves_inheritance
decide-reuse_iff v h = (ground arith, ground arith)
