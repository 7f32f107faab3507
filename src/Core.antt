-- ===== src/Core.antt =====
-- delta/core.py: values, schemas, workflows, planning and spend approval.
pub mod Value
pub mod Platform
pub mod Schema
pub mod Quote
pub mod Work
pub mod Attempt
pub mod Workflow
pub mod Inputs
pub mod Plan
pub mod Approval
