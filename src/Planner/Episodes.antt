-- ===== src/Planner/Episodes.antt =====
-- src/planner/episodes.rs: the state machine of a rate-signal episode.
pub mod State
pub mod Confirmation
pub mod Events
pub mod Budget
