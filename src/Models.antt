-- ===== src/Models.antt =====
-- src/models/: the data that the components exchange, and the persisted state.
pub mod HashMap
pub mod Batch
pub mod Index
pub mod State
