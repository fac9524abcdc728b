-- ===== src/Examples/Agents.antt =====
-- The theorems of `Agent`, `Edge/Http` and `Keys` at concrete inputs.
use proxify_vpn.Agent.Identity.{Disk, load_or_create_instance_id, stored_id}
use proxify_vpn.Agent.Identity.Kept.{IsPlain, load_or_create_instance_id-kept}
use proxify_vpn.Agent.Listing.{PeerMap, parse_dump}
use proxify_vpn.Agent.Wg.{Peer, sync, wanted}
use proxify_vpn.Agent.Wg.Added.{IsSeparate, some_inj}
use proxify_vpn.Agent.Wg.Addresses.{PeerLine, parse_dump-print_peers, row_of}
use proxify_vpn.Agent.Wg.Dump.{print_dump}
use proxify_vpn.Agent.Wg.Synced.{sync-held}
use proxify_vpn.Agent.Wg.Tool.{held}
use proxify_vpn.Base.{
  =?-eq, Bool, Option, String, String_discrete, [], ap, arith, false, if◌then◌else◌, none, refl,
  some, subst, suc, sym, true, zero, ℕ, ◌+◌, ◌<◌, ◌=?◌, ◌^◌, ◌∙◌, ◌∷◌, ◌≡◌, ◌≢◌, ◌⊎◌,
}
use proxify_vpn.Base.Netip.{parse_prefix}
use proxify_vpn.Base.Text.{contains, drop_text, show_ip, trim_right, trim_space}
use proxify_vpn.Edge.Fake.{lookup}
use proxify_vpn.Errors.{Result, ok}
use proxify_vpn.Examples.Interface.{
  header_printed, phone_ip, phone_key, phone_line, toy_tool, toy_wg, toy_wg-IsWireGuard,
}
use proxify_vpn.Keys.{raw_length}

abbrev phone_peer : Peer
phone_peer = record { public_key = phone_key; tunnel_ip = some phone_ip }

abbrev phone_map : PeerMap
phone_map = (phone_key, some phone_ip) ∷ []

one_value :
    {A : Type 0} (b : Bool) (v w : A) → (if b then some v else none) ≡ some w → (b ≡ true) × (w ≡ v)
one_value true v w h = (refl, some_inj (sym h))
one_value false v w h = absurd (cc)

phone_map-value :
    (k : String) (o : Option ℕ)
    → lookup k phone_map ≡ some o
    → (phone_key ≡ k) × (o ≡ some phone_ip)
phone_map-value k o h =
    let (b, e) = one_value (phone_key =? k) (some phone_ip) o (ground arith) in
    (=?-eq phone_key k b, e)

phone_map-IsSeparate : IsSeparate phone_map
phone_map-IsSeparate = record {
  filled = λ k o h. (phone_ip, (phone_map-value k o h).1);
  apart = λ k l ip h j. sym (phone_map-value k (some ip) h).0 ∙ (phone_map-value l (some ip) j).0;
  in_range = λ k ip h.
      subst (λ x. x < 2 ^ 32) (some_inj (sym (phone_map-value k (some ip) h).1)) (omega arith);
}

sync-held_example : held toy_tool true phone_key ≡ some (some phone_ip)
unfolding sync wanted String_discrete drop_text show_ip
sync-held_example =
    sync-held toy_wg toy_tool toy_wg-IsWireGuard (phone_peer ∷ []) phone_map refl
      phone_map-IsSeparate false true refl phone_key

-- A tablet with two addresses.
abbrev tablet_line : PeerLine
tablet_line = record {
  key = "tablet";
  psk = phone_line.psk;
  endpoint = phone_line.endpoint;
  first = "10.77.0.3/32";
  others = "10.77.0.9/32" ∷ [];
  rest = phone_line.rest;
}

parse_dump-print_peers_example :
    parse_dump (print_dump "private\tpublic\t51820\toff" (row_of tablet_line ∷ []))
    ≡ ("tablet", some (phone_ip + 1)) ∷ []
unfolding contains trim_right parse_prefix String_discrete
parse_dump-print_peers_example =
    parse_dump-print_peers "private\tpublic\t51820\toff" (tablet_line ∷ []) (header_printed true) (
      record {
        row = record {
          key_solid = refl;
          key_tab = refl;
          psk_tab = refl;
          endpoint_tab = refl;
          allowed_tab = refl;
          one_line = refl;
          rest_solid = (refl, refl);
        };
        first_comma = refl;
      },
      tt,
    )

-- The first draw, and one that differs from it.
abbrev two_draws : ℕ → Result String
two_draws zero = ok "a1b2"
two_draws (suc n) = ok "c3d4"

abbrev blank_disk : Disk
blank_disk = record {
  directory_ok = true;
  instance_file = none;
  writable = true;
  draws = two_draws;
  drawn = 0;
}

abbrev named_disk : Disk
named_disk = record blank_disk { instance_file = some "a1b2\n"; drawn = 1 }

named_draws : (n : ℕ) → IsPlain (two_draws n)
unfolding raw_length String_discrete trim_space
named_draws n = named n
  where
    four : (s : String) → raw_length s ≡ 4 → s ≢ ""
    four s four_long e = let lengths = sym four_long ∙ ap raw_length e in absurd (omega arith)

    named : (n : ℕ) → IsPlain (two_draws n)
    named zero = ((λ e. four "a1b2" refl e), refl)
    named (suc n) = ((λ e. four "c3d4" refl e), refl)

load_or_create_instance_id-kept_example :
    (load_or_create_instance_id named_disk ≡ (ok "a1b2", named_disk))
    × (((stored_id none ≡ "a1b2") × (◌≢◌ {A = String} "a1b2" "") × (named_disk ≡ blank_disk))
        ⊎ ((stored_id none ≡ "") × (two_draws 0 ≡ ok "a1b2")))
unfolding load_or_create_instance_id String_discrete
load_or_create_instance_id-kept_example =
    load_or_create_instance_id-kept blank_disk "a1b2" named_disk named_draws refl
