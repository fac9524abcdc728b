-- ===== src/Examples/Wires.antt =====
-- The theorems of `Agent/Wire` and `Edge/Http` at concrete inputs.
use proxify_vpn.Agent.Service.{Agent, Reply, serve}
use proxify_vpn.Agent.Wg.{validate_key}
use proxify_vpn.Agent.Wg.Replaced.{Replaces}
use proxify_vpn.Agent.Wg.Tool.{held}
use proxify_vpn.Agent.Wire.{wire}
use proxify_vpn.Agent.Wire.Applied.{apply_peer-held}
use proxify_vpn.Agent.Wire.Rejected.{apply_peer-rejected}
use proxify_vpn.Base.{
  Bool, Option, String, String_discrete, arith, false, inl, none, refl, some, true, ◌=?◌, ◌≡◌,
}
use proxify_vpn.Base.Text.{byte_length, drop_text, show_ip, trim_space}
use proxify_vpn.Edge.{Health, Peer}
use proxify_vpn.Edge.Http.{apply_peer}
use proxify_vpn.Errors.{Error, err, error_is, rejected, unreachable}
use proxify_vpn.Examples.Data.{lagos}
use proxify_vpn.Examples.Interface.{phone_ip, phone_key, toy_tool, toy_wg, toy_wg-IsWireGuard}

abbrev toy_agent : Agent Bool
toy_agent = record {
  wg = toy_wg;
  token = "t1";
  instance_id = "a1b2";
  version = "1.0";
  obfuscator_up = λ s. false;
}

abbrev no_health : Reply → Option Health
no_health r = none

abbrev edge_peer : Peer
edge_peer = record { public_key = phone_key; tunnel_ip = phone_ip; replaces = ""; revision = 1 }

apply_peer-held_example :
    (held toy_tool true phone_key ≡ some (some phone_ip))
    × ((old : String)
        → Replaces toy_wg toy_tool toy_wg-IsWireGuard phone_key "" old
        → (phone_key =? old) ≡ false
        → held toy_tool true old ≡ none)
unfolding apply_peer trim_space validate_key String_discrete drop_text serve show_ip
apply_peer-held_example =
    apply_peer-held no_health toy_agent toy_tool toy_wg-IsWireGuard lagos refl refl edge_peer false
      true refl (omega arith) refl

apply_peer-rejected_example :
    (e : Error) × (apply_peer
        (wire no_health toy_agent)
        lagos
        (record edge_peer { public_key = "?" })
        false
      ≡ (err e, false))
    × (error_is e rejected ≡ true)
    × (error_is e unreachable ≡ false)
unfolding trim_space String_discrete byte_length
apply_peer-rejected_example =
    apply_peer-rejected no_health toy_agent toy_tool toy_wg-IsWireGuard lagos refl refl
      (record edge_peer { public_key = "?" }) false (omega arith) (inl (inl (λ e. omega arith)))
