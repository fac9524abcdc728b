-- ===== src/Agent/Wire/Rejected.antt =====
-- What a box refuses of an `ApplyPeer`, from the control plane's call to the answer.
use proxify_vpn.Agent.Service.{Agent, Reply, bad_request, handle_set_peer, set_checked}
use proxify_vpn.Agent.Wg.{host_address, set_peer, validate_ip, validate_key}
use proxify_vpn.Agent.Wg.Tool.{IsWireGuard, Tool}
use proxify_vpn.Agent.Wire.{request_of, response_of, wire}
use proxify_vpn.Agent.Wire.Applied.{answered_by}
use proxify_vpn.Base.{
  Option, String, arith, false, inl, inr, none, refl, some, subst, sym, true, ℕ, ◌*◌, ◌/◌, ◌<◌, ◌^◌,
  ◌≡◌, ◌≢◌, ◌≤◌, ◌⊎◌,
}
use proxify_vpn.Base.Netip.RoundTrip.{parse_ip4-show_ip}
use proxify_vpn.Base.Text.{byte_length, show_ip, trim_space}
use proxify_vpn.Edge.{Health, Peer}
use proxify_vpn.Edge.Http.{accepted, apply_peer, payload_of, status_error}
use proxify_vpn.Errors.{
  Error, Result, err, error_is, ok, rejected, sentinel, unreachable, wg_invalid_ip, wg_invalid_key,
}
use proxify_vpn.Keys.{Base64, raw_length}
use proxify_vpn.Model.{Server}

-- The text is not the base64 of a key: it is not 44 bytes long, it does not decode, or what it decodes
-- to is not 32 bytes long.
abbrev pub IsBadKey : Base64 → String → Type 0
IsBadKey b key =
    (byte_length key ≢ 44)
    ⊎ ((b.decode key ≡ none) ⊎ ((raw : String) × (b.decode key ≡ some raw) × (raw_length raw ≢ 32)))

-- The address is 0.0.0.0 or one of 224.0.0.0/4.
abbrev pub IsBadAddress : ℕ → Type 0
IsBadAddress ip = (ip ≡ 0) ⊎ ((224 * 2 ^ 24 ≤ ip) × (ip < 240 * 2 ^ 24))

bad_key-refused :
    (b : Base64) (key : String)
    → IsBadKey b key
    → validate_key b key ≡ err (sentinel wg_invalid_key)
unfolding validate_key
bad_key-refused b key (inl long) = ground arith
bad_key-refused b key (inr (inl broken)) = ground arith
bad_key-refused b key (inr (inr (raw, decoded, short))) = ground arith

bad_address-refused :
    (ip : ℕ)
    → ip < 2 ^ 32
    → IsBadAddress ip
    → validate_ip (show_ip ip) ≡ err (sentinel wg_invalid_ip)
unfolding validate_ip
bad_address-refused ip small bad = rw (parse_ip4-show_ip ip small) (unusable bad)
  where
    multicast : 224 * 2 ^ 24 ≤ ip → ip < 240 * 2 ^ 24 → ip / 2 ^ 28 ≡ 14
    multicast low high = omega arith

    unusable : IsBadAddress ip → host_address (some ip) ≡ err (sentinel wg_invalid_ip)
    unusable (inl nothing) = ground arith
    unusable (inr (low, high)) = ground (arith, multicast low high)

module _ {S : Type 0} (read_health : Reply → Option Health) (a : Agent S) (tool : Tool S)
    (W : IsWireGuard a.wg tool) (srv : Server) (same_token : a.token ≡ srv.agent_token)
    (trimmed : trim_space srv.agent_token ≡ srv.agent_token) where
  -- The control plane takes the answer for a refusal that no retry mends.
  abbrev IsRefusal : Result (Unit {0}) × S → S → Type 0
  IsRefusal r s =
      (e : Error) × (r ≡ (err e, s))
      × (error_is e rejected ≡ true)
      × (error_is e unreachable ≡ false)

  abbrev through : Reply × S → Result (Unit {0}) × S
  through (r, s) = (accepted (wire read_health a) srv (ok (response_of read_health a r)), s)

  refused : (what : String) (s : S) → IsRefusal (through (bad_request what, s)) s
  unfolding status_error
  refused what s =
      (status_error srv (response_of read_health a (bad_request what)), refl, refl, refl)

  bad_key-IsRefusal :
      (p : Peer) (s : S) (v : Result ℕ)
      → validate_key a.wg.keys p.public_key ≡ err (sentinel wg_invalid_key)
      → IsRefusal (through (set_checked a (request_of (payload_of p)) v s)) s
  unfolding set_peer
  bad_key-IsRefusal p s (err e) bad = refused "invalid tunnel_ip" s
  bad_key-IsRefusal p s (ok ip) bad = rw bad (refused "invalid peer" s)

  -- An `ApplyPeer` of a peer whose key is no key, or whose address is no host's, comes back as a
  -- rejection, which no retry mends, and not as an unreachable box; nothing is done on the box.
  pub apply_peer-rejected :
      (p : Peer) (s : S)
      → p.tunnel_ip < 2 ^ 32
      → IsBadKey a.wg.keys p.public_key ⊎ IsBadAddress p.tunnel_ip
      → (e : Error) × (apply_peer (wire read_health a) srv p s ≡ (err e, s))
        × (error_is e rejected ≡ true)
        × (error_is e unreachable ≡ false)
  unfolding handle_set_peer
  apply_peer-rejected p s small bad =
      subst (λ r. IsRefusal r s) (sym (answered_by read_health a tool W srv same_token trimmed p s))
        (by_cause bad)
    where
      by_cause :
          IsBadKey a.wg.keys p.public_key ⊎ IsBadAddress p.tunnel_ip
          → IsRefusal
              (through
                (set_checked a (request_of (payload_of p)) (validate_ip (show_ip p.tunnel_ip)) s))
              s
      by_cause (inl key) = bad_key-IsRefusal p s _ (bad_key-refused a.wg.keys p.public_key key)
      by_cause (inr address) =
          rw (bad_address-refused p.tunnel_ip small address) (refused "invalid tunnel_ip" s)
