-- ===== src/Handoff/Inheritance/Rerun.antt =====
-- When the gate of delta/handoff.py runs a step again although a result was found for it.
use delta_agent.Core.Platform.{Platform}
