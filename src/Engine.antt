-- ===== src/Engine.antt =====
-- delta/execute.py: the engine that runs the ready steps of a workflow.
pub mod World
pub mod Cost
pub mod Ownership
pub mod Perform
pub mod Run
pub mod Turns
pub mod Steps
pub mod Report
pub mod Calls
pub mod Counting
pub mod Beside
pub mod Exclusive
pub mod Spent
pub mod StepCounts
pub mod Counted
