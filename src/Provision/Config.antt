-- ===== src/Provision/Config.antt =====
-- `buildConfig` and `fallbacksFor` of server/internal/provision/provision.go: what the app receives.
use proxify_vpn.Base.{List, Option, String, [], if◌then◌else◌, none, some, ℕ, ◌++◌, ◌=?◌, ◌∷◌}
use proxify_vpn.Base.Text.{host_port, show_ip, ◌<>◌}
use proxify_vpn.Model.{
  Entitlement, JsonValue, PeerAssignment, Server, json_number, json_other, json_string,
}

pub record Fallback : Type 0 where
  pub transport : String
  pub endpoint : String
  pub note : String

pub record ServerInfo : Type 0 where
  pub code : String
  pub display_name : String
  pub country_code : String
  pub region : String

pub record TunnelConfig : Type 0 where
  pub version : ℕ
  pub assignment_id : String
  pub address : String
  pub dns : List String
  pub mtu : ℕ
  pub allowed_ips : List String
  pub server_public_key : String
  pub endpoint : String
  pub persistent_keepalive : ℕ
  pub fallbacks : List Fallback
  pub obfuscation : List (String × JsonValue)
  pub server : ServerInfo
  pub expires_at : ℕ

-- `m[key]` of the obfuscation map.
abbrev pub json_at : String → List (String × JsonValue) → Option JsonValue
json_at key [] = none
json_at key ((k, v) ∷ m) = if k =? key then some v else json_at key m

-- `intFromAny`: JSON numbers and nothing else.
abbrev pub int_from_any : Option JsonValue → Option ℕ
int_from_any (some (json_number n)) = some n
int_from_any (some (json_string s)) = none
int_from_any (some json_other) = none
int_from_any none = none

-- `v.(string)` with `host != ""`
abbrev pub text_from_any : Option JsonValue → Option String
text_from_any (some (json_string s)) = if s =? "" then none else some s
text_from_any (some (json_number n)) = none
text_from_any (some json_other) = none
text_from_any none = none

abbrev pub tcp_fallback : String → Option ℕ → List Fallback
tcp_fallback host none = []
tcp_fallback host (some port) =
    record { transport = "tcp"; endpoint = host_port host port; note = "udp blocked or throttled" }
    ∷ []

abbrev pub ws_fallback : Option String → List Fallback
ws_fallback none = []
ws_fallback (some host) =
    record { transport = "ws-tls"; endpoint = host <> ":443"; note = "deep packet inspection" } ∷ []

-- `fallbacksFor`: the transport ladder, the primary first and the most resistant last.
unfoldable pub fallbacks_for : Server → List Fallback
fallbacks_for srv =
    (record {
      transport = "udp";
      endpoint = host_port srv.endpoint_host srv.endpoint_port;
      note = "primary";
    }
      ∷ tcp_fallback srv.endpoint_host (int_from_any (json_at "tcp_port" srv.obfuscation)))
    ++ ws_fallback (text_from_any (json_at "ws_host" srv.obfuscation))

unfoldable pub build_config : PeerAssignment → Server → Entitlement → TunnelConfig
unfolding fallbacks_for
build_config a srv ent = record {
  version = 1;
  assignment_id = a.id;
  address = show_ip a.tunnel_ip <> "/32";
  dns = "1.1.1.1" ∷ "1.0.0.1" ∷ [];
  mtu = 1280;
  allowed_ips = "0.0.0.0/0" ∷ "::/0" ∷ [];
  server_public_key = srv.public_key;
  endpoint = host_port srv.endpoint_host srv.endpoint_port;
  persistent_keepalive = 25;
  fallbacks = fallbacks_for srv;
  obfuscation = srv.obfuscation;
  server = record {
    code = srv.code;
    display_name = srv.display_name;
    country_code = srv.country_code;
    region = srv.region;
  };
  expires_at = ent.expires_at;
}
