-- ===== src/Runtime.antt =====
-- The supervision of src/runtime.
pub mod Readiness
