-- ===== src/Store/Tampered.antt =====
-- delta/handoff.py: what a decision read back from a record can be.
use delta_agent.Handoff.Verdict.{approves_inheritance}
use delta_agent.Common.Result.{ok}
use delta_agent.Core.Value.{Entries}
use delta_agent.Handoff.Decision.{approved, HandoffDecision, check_decision}
use delta_agent.Store.Rebuild.{decode_decision}
use delta_agent.Core.Platform.{Platform}
use delta_agent.Common.{◌≡◌, true, arith, ◌↔◌}

module _ (platform : Platform) where
  -- A stored decision, however it was changed, is read back as a decision to reuse exactly where all
  -- the verdicts read back with it approve.
  pub decode_decision-consistent :
      (es : Entries) (d : HandoffDecision)
      → decode_decision platform es ≡ ok d
      → (approved d ≡ true) ↔ (approves_inheritance d.verdicts ≡ true)
  unfolding decode_decision check_decision
  decode_decision-consistent es d h = (ground arith, ground arith)
