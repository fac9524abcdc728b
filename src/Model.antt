-- ===== src/Model.antt =====
-- server/internal/model/model.go: the domain types. A `time.Time` is a number of nanoseconds on one
-- clock, an IPv4 `netip.Addr` is its 32-bit number, and a column that may be NULL is an `Option`.
use proxify_vpn.Base.{Bool, List, Option, String, false, leb, true, ℕ, ◌&&◌}

pub record User : Type 0 where
  pub id : String
  pub email : String
  pub phone : String
  pub password_hash : String
  pub status : String
  pub created_at : ℕ

pub record Device : Type 0 where
  pub id : String
  pub user_id : String
  pub name : String
  pub platform : String
  pub public_key : String
  pub app_version : String
  pub created_at : ℕ
  pub last_seen_at : Option ℕ
  pub revoked_at : Option ℕ

pub record Plan : Type 0 where
  pub code : String
  pub name : String
  pub duration : ℕ
  pub price_kobo : ℕ
  pub currency : String
  pub data_cap_bytes : Option ℕ
  pub device_limit : ℕ
  pub is_free : Bool

pub record Subscription : Type 0 where
  pub id : String
  pub user_id : String
  pub plan_code : String
  pub source : String
  pub starts_at : ℕ
  pub expires_at : ℕ
  pub data_cap_bytes : Option ℕ

-- "What may this user do right now."
pub record Entitlement : Type 0 where
  pub active : Bool
  pub plan_code : String
  pub expires_at : ℕ
  pub device_limit : ℕ

pub data ServerStatus : Type 0 where
  in_service draining down maintenance : ServerStatus

abbrev pub is_in_service : ServerStatus → Bool
is_in_service in_service = true
is_in_service _ = false

-- A `netip.Prefix`: the network address and the number of leading bits.
pub record Prefix : Type 0 where
  pub is4 : Bool
  pub addr : ℕ
  pub bits : ℕ

-- A value of the obfuscation record: what `json.Unmarshal` puts behind `any`.
pub data JsonValue : Type 0 where
  json_number : ℕ → JsonValue
  json_string : String → JsonValue
  json_other : JsonValue

pub record Server : Type 0 where
  pub id : String
  pub code : String
  pub display_name : String
  pub country_code : String
  pub region : String
  pub endpoint_host : String
  pub endpoint_port : ℕ
  pub public_key : String
  pub obfuscation : List (String × JsonValue)
  pub tunnel_subnet : Prefix
  pub agent_url : String
  pub agent_token : String
  pub status : ServerStatus
  pub capacity_peers : ℕ
  pub priority : ℕ
  pub last_seen_at : Option ℕ
  pub live_peers : ℕ

pub data PeerState : Type 0 where
  pending active revoking revoked : PeerState

abbrev pub is_active : PeerState → Bool
is_active active = true
is_active _ = false

abbrev pub is_pending : PeerState → Bool
is_pending pending = true
is_pending _ = false

abbrev pub is_revoking : PeerState → Bool
is_revoking revoking = true
is_revoking _ = false

-- `state <> 'revoked'`
abbrev pub is_held : PeerState → Bool
is_held revoked = false
is_held _ = true

-- `state IN ('pending', 'active')`
abbrev pub is_live : PeerState → Bool
is_live pending = true
is_live active = true
is_live _ = false

-- `state IN ('pending', 'revoking')`
abbrev pub is_queued : PeerState → Bool
is_queued pending = true
is_queued revoking = true
is_queued _ = false

-- The desired state of one device's peer on one edge server.
pub record PeerAssignment : Type 0 where
  pub id : String
  pub device_id : String
  pub server_id : String
  pub public_key : String
  pub prev_public_key : String
  pub tunnel_ip : ℕ
  pub state : PeerState
  pub revision : ℕ
  pub applied_revision : ℕ
  pub attempts : ℕ
  pub last_error : String
  pub next_attempt_at : ℕ
  pub created_at : ℕ
  pub activated_at : Option ℕ

-- Whether the edge has confirmed the current desired revision.
unfoldable pub applied : PeerAssignment → Bool
applied p = is_active p.state && leb p.revision p.applied_revision
