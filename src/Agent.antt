-- ===== src/Agent.antt =====
-- edge/internal: the daemon on a box. `Wg` drives the interface, `Service` is its HTTP surface.
pub mod Listing
pub mod Wg
pub mod Service
pub mod Wire
pub mod Identity
