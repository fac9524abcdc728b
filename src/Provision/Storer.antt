-- ===== src/Provision/Storer.antt =====
-- The interface `Storer` of server/internal/provision/provision.go, and the service over it.
use proxify_vpn.Base.{Bool, List, String, ℕ}
use proxify_vpn.Base.Effects.{Call}
use proxify_vpn.Edge.{EdgeClient}
use proxify_vpn.Errors.{Error}
use proxify_vpn.Model.{Device, Entitlement, PeerAssignment, Server}

-- The slice of the store that the engine needs; `S` is the world that holds the database.
pub record Storer (S : Type 0) : Type 0 where
  pub entitlement : String → Call S Entitlement
  pub device_by_id : String → Call S Device
  pub devices_by_user : String → Call S (List Device)
  pub servers : Bool → Call S (List Server)
  pub server_by_code : String → Call S Server
  pub server_by_id : String → Call S Server
  pub ensure_assignment : String → String → String → Call S PeerAssignment
  pub mark_applied : String → ℕ → Call S (Unit {0})
  pub mark_revoked : String → ℕ → Call S (Unit {0})
  pub mark_attempt_failed : String → String → ℕ → Call S (Unit {0})
  pub begin_revoke_for_user : String → Call S ℕ
  pub begin_revoke_for_device : String → Call S ℕ
  pub begin_revoke_other_servers : String → String → Call S ℕ
  pub due_assignments : ℕ → Call S (List (PeerAssignment × Server))
  pub live_peers_for_server : String → Call S (List PeerAssignment)
  pub mark_server_peers_stale : String → Call S ℕ
  pub expired_user_ids : ℕ → Call S (List String)
  pub assignments_for_device : String → Call S (List PeerAssignment)

-- `Service`. `draw` is the next number that `rand.Float64` scales, below 2^53, and `describe` is
-- the text of an error.
pub record Service (S : Type 0) : Type 0 where
  pub store : Storer S
  pub edge : EdgeClient S
  pub clock : S → ℕ
  pub draw : S → ℕ
  pub describe : Error → String
  pub max_inline_attempts : ℕ
