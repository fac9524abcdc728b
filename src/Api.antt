-- ===== src/Api.antt =====
-- server/internal/api: the handlers, their state and what they decide.
pub mod Settlement
pub mod Identifier
pub mod RateLimit
pub mod Respond
pub mod Site
pub mod Guards
pub mod Devices
pub mod Tunnel
pub mod Accounts
pub mod Billing
pub mod Operators
pub mod Routes
