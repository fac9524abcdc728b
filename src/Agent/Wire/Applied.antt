-- ===== src/Agent/Wire/Applied.antt =====
-- What `ApplyPeer` does to a box, from the control plane's call to the interface.
use proxify_vpn.Agent.Service.{
  Agent, PeerRequest, Reply, authed, handle_set_peer, is_invalid, serve, set_checked, set_reply,
  with_ip,
}
use proxify_vpn.Agent.Wg.{host_address, set_peer, validate_ip, validate_key}
use proxify_vpn.Agent.Wg.Added.{some_inj}
use proxify_vpn.Agent.Wg.Replaced.{Replaces, set_peer-held}
use proxify_vpn.Agent.Wg.Tool.{IsWireGuard, Tool, held}
use proxify_vpn.Agent.Wire.{request_of, response_of, wire}
use proxify_vpn.Base.{
  =?-refl, Bool-cases, List, Option, String, String_discrete, [], ap, arith, false, inl, inr, none,
  refl, some, subst, sym, ℕ, ◌<◌, ◌=?◌, ◌^◌, ◌∙◌, ◌≡◌,
}
use proxify_vpn.Base.Netip.RoundTrip.{parse_ip4-show_ip}
use proxify_vpn.Base.Text.{show_ip, trim_space, ◌<>◌}
use proxify_vpn.Edge.{Health, Peer}
use proxify_vpn.Edge.Http.{accepted, apply_peer, payload_of, trim_slashes}
use proxify_vpn.Errors.{Error, Result, Result-cases, err, ok, ok-inj}
use proxify_vpn.Model.{Server}

-- An address that the agent takes is the one that was written.
host_address-same : (a ip : ℕ) → host_address (some a) ≡ ok ip → ip ≡ a
host_address-same a ip h = ground arith

validate_ip-same : (a ip : ℕ) → a < 2 ^ 32 → validate_ip (show_ip a) ≡ ok ip → ip ≡ a
unfolding validate_ip
validate_ip-same a ip small h = host_address-same a ip (rw (parse_ip4-show_ip a small) at h)

module _ {S : Type 0} (read_health : Reply → Option Health) (a : Agent S) (tool : Tool S)
    (W : IsWireGuard a.wg tool) (srv : Server) (same_token : a.token ≡ srv.agent_token)
    (trimmed : trim_space srv.agent_token ≡ srv.agent_token) where
  -- The agent knows the client's token.
  let_in : (next : S → Reply × S) (s : S) → authed a ("Bearer " <> srv.agent_token) next s ≡ next s
  unfolding authed
  let_in next s = rw (trimmed, same_token, =?-refl srv.agent_token) (ground arith)

  -- The router's choice for `ApplyPeer`.
  peers_route :
      (authorization : String) (peer : Option PeerRequest) (peers : Option (List PeerRequest))
      (s : S)
      → serve a "POST /v1/peers" authorization peer peers s
        ≡ authed a authorization (handle_set_peer a peer) s
  unfolding serve String_discrete
  peers_route authorization peer peers s = refl

  -- The answer to `ApplyPeer` is that of `handleSetPeer`.
  pub answered_by :
      (p : Peer) (s : S)
      → apply_peer (wire read_health a) srv p s ≡ (
        accepted (wire read_health a) srv (
            ok (
              response_of read_health a
                (handle_set_peer a (some (request_of (payload_of p))) s).0)),
        (handle_set_peer a (some (request_of (payload_of p))) s).1,
      )
  unfolding apply_peer
  answered_by p s =
      rw
        (
          =?-refl (trim_slashes srv.agent_url <> "/v1/peers"),
          peers_route ("Bearer " <> srv.agent_token) (some (request_of (payload_of p))) (some []) s,
          let_in (handle_set_peer a (some (request_of (payload_of p)))) s,
        )
        refl

  -- A failed `SetPeer` is answered 400 or 500, which the client does not take for done.
  not_done :
      (revision : ℕ) (x : Error)
      → accepted
          (wire read_health a)
          srv
          (ok (response_of read_health a (set_reply a revision (err x))))
        ≡ ok tt
      → ⊥
  not_done revision x h = elim (Bool-cases (is_invalid x)) [
    | inl invalid ↦ ground arith
    | inr valid ↦ ground arith
  ]

  abbrev set_call : PeerRequest → ℕ → S → Result (Unit {0}) × S
  set_call req ip s =
      set_peer a.wg (record { public_key = req.public_key; tunnel_ip = some ip }) req.replaces s

  abbrev seen : Reply → Result (Unit {0})
  seen r = accepted (wire read_health a) srv (ok (response_of read_health a r))

  -- A request that the client takes for done was done by the interface.
  set_checked-ok :
      (req : PeerRequest) (v : Result ℕ) (s s' : S)
      → seen (set_checked a req v s).0 ≡ ok tt
      → (set_checked a req v s).1 ≡ s'
      → (ip : ℕ) × (v ≡ ok ip) × (set_call req ip s ≡ (ok tt, s'))
  set_checked-ok req (err e) s s' h after_it = absurd (ground arith)
  set_checked-ok req (ok ip) s s' h after_it = elim (Result-cases (set_call req ip s).0) [
    | inl (u, e) ↦ (ip, refl, λ i. (e i, after_it i))
    | inr (x, e) ↦
        absurd (not_done req.revision x (ap (λ q. seen (set_reply a req.revision q)) (sym e) ∙ h))
  ]

  set_then :
      (p : Peer) (s s' : S)
      → p.tunnel_ip < 2 ^ 32
      → apply_peer (wire read_health a) srv p s ≡ (ok tt, s')
      → set_call (request_of (payload_of p)) p.tunnel_ip s ≡ (ok tt, s')
  unfolding handle_set_peer
  set_then p s s' small h =
      let answer = sym (answered_by p s) ∙ h in
      let (ip, checked_ip, applied_there) =
        set_checked-ok (request_of (payload_of p)) (validate_ip (show_ip p.tunnel_ip)) s s'
          (ap (λ x. x.0) answer) (ap (λ x. x.1) answer) in
      subst (λ i. set_call (request_of (payload_of p)) i s ≡ (ok tt, s'))
        (validate_ip-same p.tunnel_ip ip small checked_ip) applied_there

  -- An `ApplyPeer` that the control plane takes for done is done on the box: the interface has the
  -- peer with its address, and no peer under the key that it replaces. The key is in canonical form,
  -- as the API stores it, and the two ends share the token.
  pub apply_peer-held :
      (p : Peer) (s s' : S)
      → validate_key a.wg.keys p.public_key ≡ ok p.public_key
      → p.tunnel_ip < 2 ^ 32
      → apply_peer (wire read_health a) srv p s ≡ (ok tt, s')
      → (held tool s' p.public_key ≡ some (some p.tunnel_ip))
        × ((old : String)
            → Replaces a.wg tool W p.public_key p.replaces old
            → (p.public_key =? old) ≡ false
            → held tool s' old ≡ none)
  apply_peer-held p s s' canonical small h =
      let (key, ip, valid, with_ip, at_key, without_old) =
        set_peer-held a.wg tool W
          (record { public_key = p.public_key; tunnel_ip = some p.tunnel_ip }) p.replaces s s'
          (λ j e. subst (λ x. x < 2 ^ 32) (some_inj e) small) (set_then p s s' small h) in
      subst
        (λ k.
          (held tool s' k ≡ some (some p.tunnel_ip))
          × ((old : String)
              → Replaces a.wg tool W k p.replaces old
              → (k =? old) ≡ false
              → held tool s' old ≡ none))
        (ok-inj (sym valid ∙ canonical)) (at_key ∙ ap some (sym with_ip), without_old)
