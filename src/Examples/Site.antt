-- ===== src/Examples/Site.antt =====
-- A server with toy libraries, and the site of the small deployment.
use proxify_vpn.Api.Billing.Verified.{IsFaithful}
use proxify_vpn.Api.RateLimit.{new_rate_limiter}
use proxify_vpn.Api.Site.{ApiServer, Site}
use proxify_vpn.Base.{String, [], ap, none, refl, some, sym, true, ◌∷◌}
use proxify_vpn.Base.Text.{drop_text}
use proxify_vpn.Errors.{ok, ok-inj}
use proxify_vpn.Examples.Codec.{toy_crypto}
use proxify_vpn.Examples.Data.{lapsed_world}
use proxify_vpn.Examples.Interface.{toy_base64}
use proxify_vpn.Paystack.{Client, Event, Gateway, verify_charge}
use proxify_vpn.Store.Db.{UserRow}
use proxify_vpn.Store.Users.{token_row}
use proxify_vpn.World.{World}

abbrev paid_event : String → Event
paid_event reference = record {
  event = "charge.success";
  id = 7;
  reference = reference;
  status = "success";
  amount = 50000;
  user_id = "u1";
  plan_code = "weekly";
}

-- A provider that confirms whatever it is asked for.
abbrev toy_gateway : Gateway World
toy_gateway = record {
  post = λ path bearer c w. (ok "", w);
  get = λ path bearer w. (ok path, w);
  hmac512 = λ key body. key;
  decode_initialize = λ raw. none;
  decode_verify = λ raw. some (record { status = true; raw = raw });
  decode_charge = λ raw. some (paid_event (drop_text 20 raw));
  decode_event = λ body. some (paid_event body);
}

abbrev toy_paystack : Client World
toy_paystack = record { secret_key = "sk"; webhook_key = "whk"; gateway = toy_gateway }

abbrev pub toy_api : ApiServer
toy_api = record {
  refresh_token_ttl = 1000;
  free_plan_enabled = true;
  crypto = toy_crypto;
  signer = record { secret = "s"; ttl = 5000000000 };
  keys = toy_base64;
  paystack = toy_paystack;
  encode = λ ev. "{}";
  admin_token = "root";
}

pub toy_paystack-IsFaithful : IsFaithful toy_api.paystack
unfolding verify_charge drop_text
toy_paystack-IsFaithful = record {
  quiet = λ path bearer w. refl;
  asked = λ reference w ev h. sym (ap (λ e. e.reference) (ok-inj h));
}

abbrev ada : UserRow
ada = record {
  id = "u1";
  email = some "ada@example.ng";
  phone = none;
  password_hash = "hash of secret12";
  status = "active";
  created_at = 1;
}

abbrev pub open_site : Site
open_site = record {
  world = record lapsed_world { db = record lapsed_world.db { users = ada ∷ [] } };
  login_limiter = new_rate_limiter 10 60000000000;
  signup_limiter = new_rate_limiter 5 600000000000;
}

-- The same after a sign-in that gave out the token `ci`.
abbrev pub session_site : Site
session_site = record open_site {
  world = record open_site.world {
    db = record open_site.world.db {
      refresh_tokens = token_row 800 "id-1" "u1" none "digest of ci" 1800 ∷ [];
    };
    ids = 3;
  };
}
