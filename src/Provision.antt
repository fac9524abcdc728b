-- ===== src/Provision.antt =====
-- server/internal/provision: the engine that brings the edge servers to the desired state.
pub mod Storer
pub mod Backoff
pub mod Config
pub mod Engine
pub mod Selector
pub mod Reconciler
