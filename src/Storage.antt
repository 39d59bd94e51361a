-- ===== src/Storage.antt =====
-- The durable store of src/storage: its records, the lifecycle graph and the mutations.
pub mod Models
pub mod Graph
pub mod Store
