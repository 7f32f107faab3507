-- ===== src/Handoff.antt =====
-- delta/handoff.py: which previous work may cross a handoff.
pub mod Policy
pub mod Verdict
pub mod Decision
pub mod Context
pub mod Receipt
pub mod Discovery
pub mod Judge
pub mod Candidate
pub mod Inheritance
pub mod Gate
