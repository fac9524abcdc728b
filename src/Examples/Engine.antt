-- ===== src/Examples/Engine.antt =====
-- The theorems of `Provision/Engine`, `Provision/Selector` and `Provision/Backoff` at concrete inputs.
use mathlib.Core.List.{Perm}
use proxify_vpn.Base.{
  List, Option, String, String_discrete, [], arith, leb, length, length-append, none, refl, some,
  true, ℕ, ◌&&◌, ◌*◌, ◌++◌, ◌+◌, ◌<◌, ◌=?◌, ◌^◌, ◌||◌, ◌∷◌, ◌≡◌, ◌≤◌, ◌⊎◌,
}
use proxify_vpn.Base.Rows.{listed, rows_where}
use proxify_vpn.Base.Sorting.{IsOrdered, take}
use proxify_vpn.Base.Text.{
  equal_fold, host_port, show_digits, show_ip, show_number, text_before, to_lower, trim_left,
  trim_right, trim_space, ◌<>◌,
}
use proxify_vpn.Edge.{Peer}
use proxify_vpn.Edge.Fake.{Fake, apply_peer, failure, logged, peers_of, set_box, unless, with_peer}
use proxify_vpn.Errors.{Error, ok}
use proxify_vpn.Examples.Data.{lagos, phone, up}
use proxify_vpn.Model.{Device, Entitlement, PeerAssignment, Server, applied}
use proxify_vpn.Provision.Backoff.{backoff, backoff-bounds, base_delay}
use proxify_vpn.Provision.Config.{TunnelConfig, build_config, fallbacks_for}
use proxify_vpn.Provision.Engine.{
  is_allowed, new_service, provision, provision_on, try_servers, within_first,
}
use proxify_vpn.Provision.Engine.Calls.{Counts, provision-calls}
use proxify_vpn.Provision.Engine.Granted.{
  FromServer, after_device, after_entitlement, candidates_read, provision-granted,
}
use proxify_vpn.Provision.Engine.Limit.{created_before, ids, is_allowed-oldest}
use proxify_vpn.Provision.Selector.{Request, at_capacity, candidates, comes_first, sort_servers}
use proxify_vpn.Store.Db.{is_null}
use proxify_vpn.Store.Devices.{device_by_id, devices_by_user}
use proxify_vpn.Store.Peers.{
  allocate_ip, begin_revoke_other_servers, ensure_assignment, first_free, mark_applied, new_row,
  scan_peer,
}
use proxify_vpn.Store.Servers.{servers}
use proxify_vpn.Store.Subscriptions.{entitlement, with_limits}
use proxify_vpn.World.{World, world_edge, world_service, world_store}

abbrev req : Request
req = record { user_id = "u1"; device_id = "d1"; server_code = "auto"; client_country = "NG" }

abbrev week : Entitlement
week = record { active = true; plan_code = "weekly"; expires_at = 700; device_limit = 2 }

abbrev given : PeerAssignment
given = scan_peer (new_row 10 "id-2" "d1" "s1" "key-1" (10 * 2 ^ 24 + 77 * 2 ^ 16 + 2))

abbrev cfg : TunnelConfig
cfg = build_config given lagos week

provision-granted_example :
    (ent : Entitlement) × (device : Device) × (devices : List Device) × (list : List Server)
    × ((world_service.store.entitlement "u1" up).0 ≡ ok ent)
    × (ent.active ≡ true)
    × ((world_service.store.device_by_id "d1" (after_entitlement world_service req up)).0
        ≡ ok device)
    × (device.user_id ≡ "u1")
    × (device.revoked_at ≡ none)
    × ((world_service.store.devices_by_user "u1" (after_device world_service req up)).0
        ≡ ok devices)
    × (is_allowed device.id ent.device_limit devices ≡ true)
    × (candidates_read world_service req up ≡ ok list)
    × FromServer world_service device ent list cfg
unfolding provision world_service world_store entitlement with_limits String_discrete device_by_id
    is_allowed devices_by_user candidates trim_space to_lower servers try_servers sort_servers
    comes_first at_capacity equal_fold text_before trim_left trim_right apply_peer failure applied
    build_config fallbacks_for new_service provision_on within_first allocate_ip
    begin_revoke_other_servers ensure_assignment first_free mark_applied scan_peer world_edge
    show_ip show_number show_digits host_port
provision-granted_example = provision-granted world_service req up cfg refl

-- The tests of `Counts` on the world: only a push lengthens the boxes' record of calls.
abbrev pushes : World → ℕ
pushes w = length w.boxes.calls

pushed-one :
    (srv : Server) (p : Peer) (f : Fake) → length (apply_peer srv p f).1.calls ≤ length f.calls + 1
unfolding apply_peer
pushed-one srv p f = after (failure g srv)
  where
    call : String
    call = "apply:" <> srv.code <> ":" <> p.public_key

    g : Fake
    g = logged call f

    longer : length (f.calls ++ (call ∷ [])) ≤ length f.calls + 1
    longer = omega (arith, length-append f.calls (call ∷ []))

    after :
        (o : Option Error)
        → length
            (unless o g
              (λ h. (ok tt, set_box srv.code (with_peer p (peers_of srv.code h)) h))).1.calls
          ≤ length f.calls + 1
    after none = longer
    after (some e) = longer

world-Counts : Counts world_service pushes
unfolding world_service world_store world_edge new_service
world-Counts = record {
  entitlement = λ u s. refl;
  device_by_id = λ d s. refl;
  devices_by_user = λ u s. refl;
  servers = λ b s. refl;
  server_by_code = λ c s. refl;
  ensure_assignment = λ d k key s. refl;
  mark_applied = λ a r s. refl;
  mark_attempt_failed = λ a c t s. refl;
  begin_revoke_other_servers = λ d k s. refl;
  apply_peer = λ srv p s. pushed-one srv p s.boxes;
}

provision-calls_example : pushes (provision world_service req up).1 ≤ pushes up + 2
unfolding world_service new_service
provision-calls_example = provision-calls world_service pushes world-Counts req up

is_allowed-oldest_example :
    (n : ℕ) × (devices : List Device) × (((1 ≤ 2) × (n ≡ 2)) ⊎ ((◌≡◌ {A = ℕ} 2 0) × (n ≡ 1)))
    × Perm devices (rows_where (λ d. d.user_id =? "u1" && is_null d.revoked_at) (phone ∷ []))
    × IsOrdered created_before devices
    × (is_allowed "d1" 2 (devices_by_user "u1" (phone ∷ []))
        ≡ (leb (length devices) n || listed "d1" (ids (take n devices))))
is_allowed-oldest_example = is_allowed-oldest "u1" "d1" 2 (phone ∷ [])

backoff-bounds_example :
    (4 * base_delay 3 < 5 * (backoff 3 7 + 1))
    × (5 * backoff 3 7 ≤ 6 * base_delay 3)
    × (1 ≤ backoff 3 7)
    × (backoff 3 7 ≤ 360 * 1000000000)
backoff-bounds_example = backoff-bounds 3 7 (omega arith)
