-- ===== src/Edge.antt =====
-- server/internal/edge/edge.go: the control plane's view of an edge server.
pub mod Fake
pub mod Http
use proxify_vpn.Base.{Bool, List, String, ℕ}
use proxify_vpn.Base.Effects.{Call}
use proxify_vpn.Model.{Server}

-- The desired state of one WireGuard peer on one edge server.
pub record Peer : Type 0 where
  pub public_key : String
  pub tunnel_ip : ℕ
  pub replaces : String
  pub revision : ℕ

-- What an edge agent reports about itself.
pub record Health : Type 0 where
  pub healthy : Bool
  pub boot_id : String
  pub peer_count : ℕ
  pub wireguard : Bool

-- The interface `Client`. The world `S` holds the boxes.
pub record EdgeClient (S : Type 0) : Type 0 where
  pub apply_peer : Server → Peer → Call S (Unit {0})
  pub remove_peer : Server → String → Call S (Unit {0})
  pub sync_peers : Server → List Peer → Call S (Unit {0})
  pub health : Server → Call S Health
