-- ===== src/Planner.antt =====
-- src/planner: deterministic planning.
pub mod Episodes
pub mod Objective
pub mod Scheduler
pub mod Candidates
pub mod Lattice
