-- ===== src/Examples/Handlers.antt =====
-- The theorems of `Api`'s handlers and of `Config` at concrete inputs.
use proxify_vpn.Api.Accounts.{Credentials, handle_login, handle_refresh}
use proxify_vpn.Api.Accounts.Sessions.{handle_refresh-once}
use proxify_vpn.Api.Accounts.SignIn.{IsSignedIn, handle_login-IsSignedIn}
use proxify_vpn.Api.Billing.{handle_paystack_webhook, handle_verify_payment}
use proxify_vpn.Api.Billing.Once.{handle_verify_payment-once}
use proxify_vpn.Api.Billing.Verified.{
  IsNotOwn, IsProcessed, IsSettledFor, handle_paystack_webhook-IsProcessed,
  handle_verify_payment-IsSettledFor, is_grant, refusal_of,
}
use proxify_vpn.Api.Devices.{handle_delete_device}
use proxify_vpn.Api.Devices.Removal.{IsOwner, IsRemoved, handle_delete_device-IsRemoved}
use proxify_vpn.Api.Operators.{UpsertServerRequest, handle_upsert_server}
use proxify_vpn.Api.Operators.Registered.{handle_upsert_server-unused, in_use}
use proxify_vpn.Api.RateLimit.{allow}
use proxify_vpn.Api.Respond.{
  Response, answered, going, handle, is_going, received, server_saved, tokens, write_domain_error,
  write_error, write_json,
}
use proxify_vpn.Api.Respond.Codes.{retrying, try_servers-retrying}
use proxify_vpn.Api.Settlement.{settle_charge}
use proxify_vpn.Api.Site.{Site}
use proxify_vpn.Auth.{issue}
use proxify_vpn.Base.{
  Option, String, String_discrete, [], ap, arith, false, if◌then◌else◌, none, refl, some, true, ℕ,
  ◌=?◌, ◌≡◌, ◌≢◌, ◌⊎◌,
}
use proxify_vpn.Base.Rows.{exists_row}
use proxify_vpn.Base.Text.{drop_text, equal_fold, trim_space}
use proxify_vpn.Config.{Config, config_with, env, load}
use proxify_vpn.Config.Loaded.{IsProduction, load-IsProduction}
use proxify_vpn.Edge.Fake.{apply_peer, failure, new_fake}
use proxify_vpn.Errors.{Error, noted, rejected, sentinel, text}
use proxify_vpn.Examples.Codec.{escape, strokes, toy_crypto}
use proxify_vpn.Examples.Data.{lagos, phone, up}
use proxify_vpn.Examples.Interface.{phone_key}
use proxify_vpn.Examples.Site.{open_site, session_site, toy_api, toy_paystack-IsFaithful}
use proxify_vpn.Keys.{raw_length}
use proxify_vpn.Model.{Entitlement, applied, draining}
use proxify_vpn.Paystack.{verify_charge}
use proxify_vpn.Provision.Engine.{gave_up, new_service, provision_on, try_servers}
use proxify_vpn.Store.Payments.{payment_by_ref, settle_payment}
use proxify_vpn.Store.Payments.Once.{payment_run}
use proxify_vpn.Store.Peers.{allocate_ip, ensure_assignment, first_free, scan_peer}
use proxify_vpn.Store.Servers.{upsert_server}
use proxify_vpn.Store.Subscriptions.{block_start, grant_time_block}
use proxify_vpn.Store.Users.{create_refresh_token, rotate_refresh_token, user_by_identifier}
use proxify_vpn.Store.Users.Tokens.{token_run}
use proxify_vpn.World.{World, world_edge, world_service, world_store}

handle_delete_device-IsRemoved_example :
    IsOwner "u1" "d1" open_site
      × ((handle (handle_delete_device "u1" "d1") open_site).0.status ≡ 204)
      × IsRemoved "d1" open_site.world (handle (handle_delete_device "u1" "d1") open_site).1.world
    ⊎ ¬ IsOwner "u1" "d1" open_site
      × (handle (handle_delete_device "u1" "d1") open_site
          ≡ (write_error 404 "not_found" "device not found", open_site))
handle_delete_device-IsRemoved_example = handle_delete_device-IsRemoved "u1" "d1" open_site

abbrev ada_login : Credentials
ada_login = record { identifier = "Ada@Example.NG"; password = "secret12" }

abbrev signed_in : Site
signed_in = (handle_login toy_api (some ada_login) open_site).1

abbrev ada_session : Response
ada_session = write_json 200 (
    tokens (record {
      access_token = (issue toy_crypto toy_api.signer 800 "u1" "").0;
      refresh_token = "ci";
      expires_at = 5000000800;
      user_id = "u1";
    }))

handle_login-IsSignedIn_example :
    IsSignedIn toy_api (some ada_login) open_site ada_session signed_in
unfolding handle_login issue escape strokes String_discrete allow user_by_identifier equal_fold
    create_refresh_token
handle_login-IsSignedIn_example =
    handle_login-IsSignedIn toy_api (some ada_login) open_site ada_session signed_in refl

handle_paystack_webhook-IsProcessed_example :
    ((handle_paystack_webhook toy_api "77686b" (some "ref-1") open_site).0
        ≡ going (write_json 200 received))
      × IsProcessed toy_api "77686b"
          (some "ref-1")
          open_site
          (handle_paystack_webhook toy_api "77686b" (some "ref-1") open_site).1
    ⊎ (handle_paystack_webhook toy_api "77686b" (some "ref-1") open_site
        ≡ (answered (refusal_of toy_api (some "ref-1") "77686b"), open_site))
handle_paystack_webhook-IsProcessed_example =
    handle_paystack_webhook-IsProcessed toy_api "77686b" (some "ref-1") open_site

handle_verify_payment-IsSettledFor_example :
    (IsSettledFor toy_api "u1"
        (some "ref-1")
        open_site
        (handle_verify_payment toy_api "u1" (some "ref-1") open_site).0
        (handle_verify_payment toy_api "u1" (some "ref-1") open_site).1
      ⊎ (is_grant (handle_verify_payment toy_api "u1" (some "ref-1") open_site).0 ≡ false)
        × ((handle_verify_payment toy_api "u1" (some "ref-1") open_site).1 ≡ open_site))
    × ((reference : String)
        → ◌≡◌ {A = Option String} (some "ref-1") (some reference)
        → reference ≢ ""
        → IsNotOwn toy_api "u1" reference open_site
        → handle_verify_payment toy_api "u1" (some "ref-1") open_site
          ≡ (answered (write_error 404 "unknown_reference" "no such payment"), open_site))
handle_verify_payment-IsSettledFor_example =
    handle_verify_payment-IsSettledFor toy_api toy_paystack-IsFaithful "u1" (some "ref-1") open_site

abbrev settled_site : Site
settled_site = (handle_verify_payment toy_api "u1" (some "ref-1") open_site).1

handle_verify_payment-once_example :
    (is_grant (handle_verify_payment toy_api "u1" (some "ref-1") settled_site).0 ≡ false)
    × ((handle_verify_payment toy_api "u1" (some "ref-1") settled_site).1 ≡ settled_site)
unfolding handle_verify_payment String_discrete payment_by_ref verify_charge settle_charge drop_text
    settle_payment grant_time_block block_start payment_run
handle_verify_payment-once_example =
    handle_verify_payment-once toy_api toy_paystack-IsFaithful "u1" "u1" "ref-1" open_site
      settled_site [] refl refl

abbrev ended : World
ended = record up { now = 5000 }

-- Ada's session a second time, from the token that she holds.
abbrev refreshed : Site
refreshed = (handle_refresh toy_api (some "ci") session_site).1

abbrev renewed : Response
renewed = write_json 200 (
    tokens (record {
      access_token = (issue toy_crypto toy_api.signer 800 "u1" "").0;
      refresh_token = "cicici";
      expires_at = 5000000800;
      user_id = "u1";
    }))

handle_refresh-once_example :
    (is_going (handle_refresh toy_api (some "ci") refreshed).0 ≡ false)
    × ((handle_refresh toy_api (some "ci") refreshed).1.world.db.refresh_tokens
        ≡ refreshed.world.db.refresh_tokens)
unfolding handle_refresh issue escape strokes String_discrete rotate_refresh_token token_run
handle_refresh-once_example =
    handle_refresh-once toy_api "ci" session_site refreshed refreshed renewed [] refl (omega arith)
      refl

-- An operator's request without a status.
abbrev new_box : UpsertServerRequest
new_box = record {
  code = "ng-los-1";
  display_name = "Lagos";
  country_code = "NG";
  region = "west";
  endpoint_host = "los.example";
  endpoint_port = 0;
  public_key = phone_key;
  obfuscation = [];
  tunnel_subnet = "10.77.0.0/24";
  agent_url = "http://s1";
  agent_token = "t1";
  status = "";
  capacity_peers = 0;
  priority = 0;
}

abbrev registered_site : Site
registered_site =
    (handle_upsert_server toy_api (λ s. some lagos.tunnel_subnet) (some new_box) open_site).1

handle_upsert_server-unused_example :
    exists_row (in_use "ng-los-1") registered_site.world.db.servers ≡ false
unfolding handle_upsert_server String_discrete drop_text upsert_server
handle_upsert_server-unused_example =
    handle_upsert_server-unused toy_api (λ s. some lagos.tunnel_subnet) new_box
      (write_json 200 (server_saved "s1" "ng-los-1" draining)) open_site registered_site refl refl

abbrev env_of : String → String
env_of key = if key =? "PROXIFY_ENV" then "production" else "0123456789abcdef0123456789abcdef"

abbrev production : Config
production = config_with env_of (λ s. none) (λ s. none) "0123456789abcdef0123456789abcdef"

load-IsProduction_example : IsProduction env_of (λ s. none) (λ s. none) production
unfolding raw_length load env trim_space String_discrete
load-IsProduction_example =
    load-IsProduction env_of (λ s. none) (λ s. none) production refl (λ e. not_dev e)
  where
    not_dev : ◌≡◌ {A = String} "production" "dev" → ⊥
    not_dev e = let lengths : ◌≡◌ {A = ℕ} 10 3 = ap raw_length e in absurd (omega arith)

-- A world in which every box refuses the configuration.
abbrev refusing_world : World
refusing_world = record up { boxes = record new_fake { fail_with = some (sentinel rejected) } }

abbrev week : Entitlement
week = record { active = true; plan_code = "weekly"; expires_at = 700; device_limit = 2 }

abbrev refusal : Error
refusal = noted (sentinel rejected) (text "fake failure")

try_servers-retrying_example : write_domain_error (gave_up (some refusal)) ≡ retrying
unfolding try_servers provision_on String_discrete world_service world_store ensure_assignment
    allocate_ip first_free applied scan_peer world_edge apply_peer failure new_service
try_servers-retrying_example =
    try_servers-retrying world_service phone week lagos [] refusing_world (gave_up (some refusal))
      (omega arith) refl
