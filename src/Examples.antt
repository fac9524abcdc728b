-- ===== src/Examples.antt =====
-- Each theorem with hypotheses at a concrete input, and the tests.
mod Data
mod Peers
mod Billing
mod Engine
mod Edges
mod Interface
mod Agents
mod Wires
mod Site
mod Tokens
mod Handlers
mod Codec
mod Migrations
