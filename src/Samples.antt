-- ===== src/Samples.antt =====
-- Small inputs for the modules of delta/, and the theorems at them.
mod Toy
mod Memory
mod Clock
mod Executions
mod Folder
mod Runs
mod Witnesses
mod Proofs
