-- ===== src/Store.antt =====
-- server/internal/store: the Postgres tables of server/migrations/0001_init.sql as lists of rows, and
-- what every store method shares. Each method is in the child named for its file; it takes the
-- statement's `now()` and, where it inserts, the id that `gen_random_uuid()` returned.
pub mod Peers
pub mod Payments
pub mod Devices
pub mod Servers
pub mod Users
pub mod Subscriptions
pub mod Db
