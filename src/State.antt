-- ===== src/State.antt =====
-- The exact state of src/state: idle-flow attribution, idle locks and caps.
pub mod Attribution
pub mod IdleLocks
pub mod Caps
