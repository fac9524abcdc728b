-- ===== src/Examples/Data.antt =====
-- A small deployment: two servers, one user with one device, one plan and one paid block.
use proxify_vpn.Base.{List, [], false, none, true, ◌*◌, ◌+◌, ◌^◌, ◌∷◌}
use proxify_vpn.Edge.Fake.{new_fake}
use proxify_vpn.Model.{Device, Server, active, in_service, revoking}
use proxify_vpn.Store.Db.{PaymentRow, PeerRow, PlanRow, SubscriptionRow, unsettled}
use proxify_vpn.Store.Peers.{new_row}
use proxify_vpn.World.{World}

abbrev pub lagos : Server
lagos = record {
  id = "s1";
  code = "ng-los-1";
  display_name = "Lagos";
  country_code = "NG";
  region = "west";
  endpoint_host = "los.example";
  endpoint_port = 51820;
  public_key = "server-key-1";
  obfuscation = [];
  tunnel_subnet = record { is4 = true; addr = 10 * 2 ^ 24 + 77 * 2 ^ 16; bits = 24 };
  agent_url = "http://s1";
  agent_token = "t1";
  status = in_service;
  capacity_peers = 100;
  priority = 10;
  last_seen_at = none;
  live_peers = 0;
}

abbrev pub berlin : Server
berlin = record lagos { id = "s2"; code = "de-ber-1"; country_code = "DE"; priority = 20 }

abbrev pub servers_table : List Server
servers_table = lagos ∷ berlin ∷ []

abbrev pub phone : Device
phone = record {
  id = "d1";
  user_id = "u1";
  name = "phone";
  platform = "android";
  public_key = "key-1";
  app_version = "1.0";
  created_at = 1;
  last_seen_at = none;
  revoked_at = none;
}

abbrev pub weekly : PlanRow
weekly = record {
  plan = record {
    code = "weekly";
    name = "Weekly";
    duration = 700;
    price_kobo = 50000;
    currency = "NGN";
    data_cap_bytes = none;
    device_limit = 2;
    is_free = false;
  };
  on_sale = true;
  sort_order = 1;
}

abbrev pub week_one : SubscriptionRow
week_one = record {
  block = record {
    id = "b1";
    user_id = "u1";
    plan_code = "weekly";
    source = "paystack";
    starts_at = 0;
    expires_at = 700;
    data_cap_bytes = none;
  };
  revoked_at = none;
}

abbrev pub pending_payment : PaymentRow
pending_payment = record {
  id = "p1";
  user_id = "u1";
  provider = "paystack";
  provider_ref = "ref-1";
  plan_code = "weekly";
  amount_kobo = 50000;
  currency = "NGN";
  status = unsettled;
  payload = "{}";
  updated_at = 5;
}

abbrev pub first_row : PeerRow
first_row = new_row 10 "a1" "d1" "s1" "key-1" (10 * 2 ^ 24 + 77 * 2 ^ 16 + 2)

abbrev pub live_row : PeerRow
live_row = record first_row { state = active; applied_revision = 1 }

abbrev pub leaving_row : PeerRow
leaving_row = record first_row { state = revoking; revision = 2; applied_revision = 1 }

abbrev pub up : World
up = record {
  db = record {
    plans = weekly ∷ [];
    subscriptions = week_one ∷ [];
    payments = pending_payment ∷ [];
    webhook_events = [];
    servers = servers_table;
    devices = phone ∷ [];
    peers = [];
    users = [];
    refresh_tokens = [];
  };
  boxes = new_fake;
  now = 10;
  ids = 1;
  seed = 2 ^ 52;
}

-- The same later, when the block has ended and the phone's peer is live.
abbrev pub lapsed_world : World
lapsed_world = record up { db = record up.db { peers = live_row ∷ [] }; now = 800 }
