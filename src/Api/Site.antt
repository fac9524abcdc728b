-- ===== src/Api/Site.antt =====
-- `Server` of server/internal/api/api.go: what the handlers share. The store's methods that the
-- engine does not need are given here, over `World`.
use proxify_vpn.Api.RateLimit.{RateLimiter, new_rate_limiter}
use proxify_vpn.Api.Settlement.{with_subscriptions}
use proxify_vpn.Auth.{Crypto, Signer}
use proxify_vpn.Base.{Bool, List, String, suc, ℕ}
use proxify_vpn.Base.Effects.{Call}
use proxify_vpn.Errors.{Error, Result, ok}
use proxify_vpn.Keys.{Base64}
use proxify_vpn.Model.{Device, Entitlement, Server, Subscription}
use proxify_vpn.Paystack.{Client, Event}
use proxify_vpn.Store.Db.{TokenRow, UserRow}
use proxify_vpn.Store.Devices.{device_by_id, devices_by_user}
use proxify_vpn.Store.Subscriptions.{entitlement, grant_time_block}
use proxify_vpn.World.{World, describe, fresh_id, reading}

pub record ApiServer : Type 0 where
  pub refresh_token_ttl : ℕ
  pub free_plan_enabled : Bool
  pub crypto : Crypto
  pub signer : Signer
  pub keys : Base64
  pub paystack : Client World
  pub encode : Event → String
  pub admin_token : String

-- The world with the two limiters, which live in memory.
pub record Site : Type 0 where
  pub world : World
  pub login_limiter : RateLimiter
  pub signup_limiter : RateLimiter

-- `NewServer`: 10 logins a minute and 5 signups in ten minutes.
unfoldable pub new_site : World → Site
new_site w = record {
  world = w;
  login_limiter = new_rate_limiter 10 60000000000;
  signup_limiter = new_rate_limiter 5 600000000000;
}

abbrev pub in_world : {A : Type 0} → Call World A → Call Site A
in_world m s = ((m s.world).0, record s { world = (m s.world).1 })

-- Statements on one table.
abbrev pub with_devices : {A : Type 0} → (World → Result A × List Device) → Call World A
with_devices f w = ((f w).0, record w { db = record w.db { devices = (f w).1 }; ids = suc w.ids })

abbrev pub with_servers : {A : Type 0} → (World → Result A × List Server) → Call World A
with_servers f w = ((f w).0, record w { db = record w.db { servers = (f w).1 }; ids = suc w.ids })

abbrev pub with_users : {A : Type 0} → (World → Result A × List UserRow) → Call World A
with_users f w = ((f w).0, record w { db = record w.db { users = (f w).1 }; ids = suc w.ids })

abbrev pub with_tokens : {A : Type 0} → (World → Result A × List TokenRow) → Call World A
with_tokens f w =
    ((f w).0, record w { db = record w.db { refresh_tokens = (f w).1 }; ids = suc w.ids })

abbrev pub executed : {A : Type 0} → List A → Result (Unit {0}) × List A
executed rows = (ok tt, rows)

abbrev pub find_device : String → Call World Device
find_device id = reading (λ w. device_by_id id w.db.devices)

abbrev pub grant_block : String → String → String → Call World Subscription
grant_block user_id plan_code source = with_subscriptions (λ w.
    grant_time_block w.now (fresh_id w) user_id plan_code source w.db.plans w.db.subscriptions)

abbrev pub read_entitlement : String → Call World Entitlement
read_entitlement user_id =
    reading (λ w. ok (entitlement w.now user_id w.db.plans w.db.subscriptions))

abbrev pub list_devices : String → Call World (List Device)
list_devices user_id = reading (λ w. ok (devices_by_user user_id w.db.devices))

-- The next draw of `crypto/rand`.
abbrev pub drawing : {A : Type 0} → (ℕ → Result A) → Call World A
drawing f w = (f w.ids, record w { ids = suc w.ids })

-- The message of an error: `err.Error()`.
abbrev pub message_of : Error → String
message_of e = describe e
