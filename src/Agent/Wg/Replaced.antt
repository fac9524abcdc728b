-- ===== src/Agent/Wg/Replaced.antt =====
-- `SetPeer`: the peer is set, and the key that it replaces is gone.
use proxify_vpn.Agent.Wg.{
  Client, Peer, drop_replaced, on_key, save, set_key, set_peer, set_valid, validate_key,
}
use proxify_vpn.Agent.Wg.Tool.{IsWireGuard, Tool, held, remove_key-held, save-held, set_key-held}
use proxify_vpn.Base.{
  =?-refl, Option, String, ap, false, none, refl, some, sym, ℕ, ◌<◌, ◌=?◌, ◌^◌, ◌||◌, ◌∙◌, ◌≡◌,
}
use proxify_vpn.Base.Effects.{then_ok, ◌>>◌}
use proxify_vpn.Errors.{Result, err, ok}

module _ {S : Type 0} (c : Client S) (tool : Tool S) (W : IsWireGuard c tool) where
  -- The key that is replaced: the checked form of a key that is named and is another.
  abbrev pub Replaces : String → String → String → Type 0
  Replaces key replaces old =
      ((replaces =? "" || replaces =? key) ≡ false) × (validate_key c.keys replaces ≡ ok old)

  set_valid-held :
      (key replaces : String) (ip : ℕ) (s s' : S)
      → ip < 2 ^ 32
      → set_valid c key replaces (some ip) s ≡ (ok tt, s')
      → (held tool s' key ≡ some (some ip))
        × ((old : String)
            → Replaces key replaces old
            → (key =? old) ≡ false
            → held tool s' old ≡ none)
  set_valid-held key replaces ip s s' small h =
      let (u, dropped, h₁) =
        then_ok (drop_replaced c key replaces s).0 (λ _. set_key c key ip >> save c)
          (drop_replaced c key replaces s).1 h in
      let s₁ = (drop_replaced c key replaces s).1 in
      let (v, set_ok, h₂) =
        then_ok (set_key c key ip s₁).0 (λ _. save c) (set_key c key ip s₁).1 h₁ in
      let s₂ = (set_key c key ip s₁).1 in
      let (at_key, absent, beside) =
        set_key-held c tool W key ip s₁ s₂ small (λ i. (set_ok i, s₂)) in
      let last : (k : String) → held tool s' k ≡ held tool s₂ k =
        λ k. ap (λ x. held tool x k) (sym (ap (λ x. x.1) h₂)) ∙ save-held c tool W s₂ k in
      (
        last key ∙ at_key,
        λ old replacing other.
            last old ∙ absent old other (gone old replacing (λ i. (dropped i, s₁))),
      )
    where
      gone :
          (old : String)
          → Replaces key replaces old
          → {s₁ : S} → drop_replaced c key replaces s ≡ (ok tt, s₁)
          → held tool s₁ old ≡ none
      gone old (named, checked_old) {s₁} e =
          remove_key-held c tool W old s s₁ (rw (named, checked_old) at e) old
          ∙ rw (=?-refl old) refl

  -- A `SetPeer` of an address of 32 bits that succeeds leaves the peer with its address, under the checked form of its key,
  -- and no peer under the key that it replaces.
  pub set_peer-held :
      (p : Peer) (replaces : String) (s s' : S)
      → ((ip : ℕ) → p.tunnel_ip ≡ some ip → ip < 2 ^ 32)
      → set_peer c p replaces s ≡ (ok tt, s')
      → (key : String) × (ip : ℕ) × (validate_key c.keys p.public_key ≡ ok key)
        × (p.tunnel_ip ≡ some ip)
        × (held tool s' key ≡ some (some ip))
        × ((old : String)
            → Replaces key replaces old
            → (key =? old) ≡ false
            → held tool s' old ≡ none)
  unfolding set_peer
  set_peer-held p replaces s s' small h =
      on_valid (validate_key c.keys p.public_key) p.tunnel_ip refl refl h
    where
      on_valid :
          (r : Result String) (o : Option ℕ)
          → validate_key c.keys p.public_key ≡ r
          → p.tunnel_ip ≡ o
          → on_key c r (λ key. set_valid c key replaces o) s ≡ (ok tt, s')
          → (key : String) × (ip : ℕ) × (validate_key c.keys p.public_key ≡ ok key)
            × (p.tunnel_ip ≡ some ip)
            × (held tool s' key ≡ some (some ip))
            × ((old : String)
                → Replaces key replaces old
                → (key =? old) ≡ false
                → held tool s' old ≡ none)
      on_valid (err e) o er eo k = absurd (cc)
      on_valid (ok key) none er eo k = absurd (cc)
      on_valid (ok key) (some ip) er eo k =
          let (at_key, without_old) = set_valid-held key replaces ip s s' (small ip eo) k in
          (key, ip, er, eo, at_key, without_old)
