-- ===== src/Layers.antt =====
-- The layer stack, crates/sandbox-runtime/layerstack/src: its data model, leases, squash, and the
-- stack of published layers with its garbage collection.
pub mod Model
pub mod Changes
pub mod Leases
pub mod Squash
pub mod Stack
pub mod Planner
pub mod View
