-- ===== src/Store/Db.antt =====
-- The tables of server/migrations/0001_init.sql, one record for a row. A text column that every
-- query reads through `COALESCE(…, '')` is a text.
use proxify_vpn.Base.{Bool, List, Option, String, false, if◌then◌else◌, none, some, true, ℕ, ◌=?◌}
use proxify_vpn.Errors.{Result, err, map_err, ok}
use proxify_vpn.Model.{Device, PeerState, Plan, Server, Subscription}

pub record PeerRow : Type 0 where
  pub id : String
  pub device_id : String
  pub server_id : String
  pub public_key : String
  pub prev_public_key : Option String
  pub tunnel_ip : ℕ
  pub state : PeerState
  pub revision : ℕ
  pub applied_revision : ℕ
  pub attempts : ℕ
  pub last_error : Option String
  pub next_attempt_at : ℕ
  pub created_at : ℕ
  pub updated_at : ℕ
  pub activated_at : Option ℕ
  pub revoked_at : Option ℕ

pub record SubscriptionRow : Type 0 where
  pub block : Subscription
  pub open block use *
  pub revoked_at : Option ℕ

pub record PlanRow : Type 0 where
  pub plan : Plan
  pub open plan use *
  pub on_sale : Bool
  pub sort_order : ℕ

pub data PaymentStatus : Type 0 where
  unsettled success failed abandoned : PaymentStatus

pub record PaymentRow : Type 0 where
  pub id : String
  pub user_id : String
  pub provider : String
  pub provider_ref : String
  pub plan_code : String
  pub amount_kobo : ℕ
  pub currency : String
  pub status : PaymentStatus
  pub payload : String
  pub updated_at : ℕ

pub record WebhookRow : Type 0 where
  pub id : String
  pub provider : String
  pub event_id : String
  pub event_type : String
  pub payload : String
  pub received_at : ℕ
  pub handled_at : Option ℕ

-- A row of `users`. An e-mail address is `citext`, so its case does not matter.
pub record UserRow : Type 0 where
  pub id : String
  pub email : Option String
  pub phone : Option String
  pub password_hash : String
  pub status : String
  pub created_at : ℕ

-- A row of `refresh_tokens`; the hash is text here.
pub record TokenRow : Type 0 where
  pub id : String
  pub user_id : String
  pub device_id : Option String
  pub token_hash : String
  pub expires_at : ℕ
  pub revoked_at : Option ℕ
  pub created_at : ℕ

-- A server's row has no count of live peers: `live_peers` is filled in by the queries.
pub record Db : Type 0 where
  pub plans : List PlanRow
  pub subscriptions : List SubscriptionRow
  pub payments : List PaymentRow
  pub webhook_events : List WebhookRow
  pub servers : List Server
  pub devices : List Device
  pub peers : List PeerRow
  pub users : List UserRow
  pub refresh_tokens : List TokenRow

-- `COALESCE(a, b)`
abbrev pub coalesce {ℓ} : {A : Type ℓ} → Option A → A → A
coalesce none b = b
coalesce (some a) b = a

abbrev pub is_null {ℓ} : {A : Type ℓ} → Option A → Bool
is_null none = true
is_null (some a) = false

-- `NULLIF(s, '')`
abbrev pub null_if_empty : String → Option String
null_if_empty s = if s =? "" then none else some s

abbrev pub commit {ℓ κ} : {S : Type ℓ} {A : Type κ} → S → Result A × S → Result A × S
commit s (ok a, s') = (ok a, s')
commit s (err e, s') = (err (map_err e), s)

-- `InTx`: a transaction's writes stay only if its body succeeds.
abbrev pub in_tx {ℓ κ} : {S : Type ℓ} {A : Type κ} → (S → Result A × S) → S → Result A × S
in_tx body s = commit s (body s)
