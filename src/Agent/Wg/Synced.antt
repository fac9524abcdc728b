-- ===== src/Agent/Wg/Synced.antt =====
-- `Sync`: the interface is left with exactly the given peers.
use proxify_vpn.Agent.Listing.{PeerMap}
use proxify_vpn.Agent.Wg.{
  Client, Peer, is_some, list_peers, on_want, remove_unwanted, same_ip, save, set_wanted, sync,
  sync_to, validate_key, want_one, wanted,
}
use proxify_vpn.Agent.Wg.Added.{HasNoOther, IsRight, IsSeparate, none-some, set_wanted-held}
use proxify_vpn.Agent.Wg.Removed.{unwanted_gone, wanted_kept}
use proxify_vpn.Agent.Wg.Tool.{IsMap, IsWireGuard, Tool, held, list_peers-held, save-held}
use proxify_vpn.Base.{
  All-map, Bool-cases, List, Option, Option-cases, String, [], ap, arith, false, inl, inr, none,
  not, refl, some, subst, sym, true, ℕ, ◌=?◌, ◌∙◌, ◌∷◌, ◌≡◌,
}
use proxify_vpn.Base.Effects.{on_ok, then_ok, ◌>>◌}
use proxify_vpn.Base.Rows.{All-rows_where, exists_row}
use proxify_vpn.Edge.Fake.{keyed_by, lookup, put, remove}
use proxify_vpn.Edge.Fake.Held.{lookup-put, lookup-put-other}
use proxify_vpn.Errors.{Result, err, ok, ok-inj}

in_map : (k : String) (m : PeerMap) → lookup k m ≡ none → exists_row (keyed_by k) m ≡ false
in_map k [] h = refl
in_map k (e ∷ m) h = ground (arith, in_map k m)

out_of_map : (k : String) (m : PeerMap) → exists_row (keyed_by k) m ≡ false → lookup k m ≡ none
out_of_map k [] h = refl
out_of_map k (e ∷ m) h = ground (arith, out_of_map k m)

IsMap-put : (key : String) (v : Option ℕ) (m : PeerMap) → IsMap m → IsMap (put key v m)
IsMap-put key v m h = (
  lookup-put key v m,
  All-map _ _ (remove key m) (λ e known. beside e known.0 known.1)
      (All-rows_where (λ e. lookup e.0 m ≡ some e.1) (λ e. not (keyed_by key e)) m h),
)
  where
    turned : (a b : String) → not (a =? b) ≡ true → (b =? a) ≡ false
    turned a b h = ground arith

    beside :
        (e : String × Option ℕ)
        → lookup e.0 m ≡ some e.1
        → not (keyed_by key e) ≡ true
        → lookup e.0 (put key v m) ≡ some e.1
    beside e known other = lookup-put-other e.0 key v m (turned e.0 key other) ∙ known

module _ {S : Type 0} (c : Client S) where
  want_one-put :
      (p : Peer) (want more : PeerMap) (r : Result String) (o : Option ℕ)
      → want_one c p want r o ≡ ok more
      → IsMap want
      → IsMap more
  want_one-put p want more (err e) o h m = absurd (cc)
  want_one-put p want more (ok key) none h m = absurd (cc)
  want_one-put p want more (ok key) (some ip) h m =
      subst IsMap (ok-inj h) (IsMap-put key (some ip) want m)

  on_want-ok :
      (r : Result PeerMap) (k : PeerMap → Result PeerMap) {m : PeerMap}
      → on_want c r k ≡ ok m
      → (more : PeerMap) × (r ≡ ok more) × (k more ≡ ok m)
  on_want-ok (err e) k h = absurd (cc)
  on_want-ok (ok more) k h = (more, refl, h)

  wanted-IsMap :
      (peers : List Peer) (want m : PeerMap) → IsMap want → wanted c want peers ≡ ok m → IsMap m
  unfolding wanted
  wanted-IsMap [] want m h e = subst IsMap (ok-inj e) h
  wanted-IsMap (p ∷ peers) want m h e =
      let (more, one, rest) =
        on_want-ok (want_one c p want (validate_key c.keys p.public_key) p.tunnel_ip) _ e in
      wanted-IsMap peers more m (want_one-put p want more _ _ one h) rest

  saved :
      (r : Result (Unit {0})) (s : S) {s' : S}
      → on_ok (λ _. save c) r s ≡ (ok tt, s')
      → (r ≡ ok tt) × (s' ≡ (save c s).1)
  saved (ok u) s h = (refl, sym (ap (λ x. x.1) h))
  saved (err e) s h = absurd (cc)

module _ {S : Type 0} (c : Client S) (tool : Tool S) (W : IsWireGuard c tool)
    (want current : PeerMap) (separate : IsSeparate want) where
  -- What the removals leave to the second loop: nothing but wanted peers, and those that are right
  -- are as they were.
  removed-ready :
      (s s₂ : S)
      → ((k : String) → lookup k current ≡ held tool s k)
      → remove_unwanted c want (c.order current) s ≡ (ok tt, s₂)
      → IsRight c tool W want current separate (c.order want) s₂
        × HasNoOther c tool W want current separate s₂
  removed-ready s s₂ reads h = (right, no_other)
    where
      same-some : (o : Option (Option ℕ)) (ip : ℕ) → same_ip o ip ≡ true → o ≡ some (some ip)
      same-some none ip e = absurd (cc)
      same-some (some none) ip e = absurd (cc)
      same-some (some (some j)) ip e = ground arith

      right : IsRight c tool W want current separate (c.order want) s₂
      right k ip kj (inl same) =
          wanted_kept c tool W want (c.order current) s s₂ h k (ap is_some kj)
          ∙ sym (reads k)
          ∙ same-some (lookup k current) ip same
      right k ip kj (inr gone) =
          absurd (none-some (sym (out_of_map k want (sym (W.order_keys k want) ∙ gone)) ∙ kj))

      no_other : HasNoOther c tool W want current separate s₂
      no_other k absent =
          unwanted_gone c tool W want (c.order current) s s₂ h k (ap is_some absent)
            (elim (Bool-cases (exists_row (keyed_by k) current)) [
              | inl there ↦ inr (W.order_keys k current ∙ there)
              | inr gone ↦ inl (sym (reads k) ∙ out_of_map k current gone)
            ])

  synced-held :
      (s s' : S)
      → IsMap want
      → ((k : String) → lookup k current ≡ held tool s k)
      → sync_to c current (ok want) s ≡ (ok tt, s')
      → (k : String) → held tool s' k ≡ lookup k want
  synced-held s s' map_want reads h k =
      let (u, removed_all, h₁) =
        then_ok (remove_unwanted c want (c.order current) s).0
          (λ _. set_wanted c current (c.order want) >> save c)
          (remove_unwanted c want (c.order current) s).1 h in
      let s₂ = (remove_unwanted c want (c.order current) s).1 in
      let (right, no_other) = removed-ready s s₂ reads (λ i. (removed_all i, s₂)) in
      let s₃ = (set_wanted c current (c.order want) s₂).1 in
      let (set_all, last) = saved c (set_wanted c current (c.order want) s₂).0 s₃ h₁ in
      let (right₃, no_other₃) =
        set_wanted-held c tool W want current separate (c.order want) s₂ s₃
          (W.order_all (λ e. lookup e.0 want ≡ some e.1) want map_want map_want)
          (λ i. (set_all i, s₃)) right no_other in
      ap (λ x. held tool x k) last ∙ save-held c tool W s₃ k ∙ elim (Option-cases (lookup k want)) [
        | inl absent ↦ no_other₃ k absent ∙ sym absent
        | inr (o, there) ↦
            let (ip, filled) = separate.filled k o there in
            let here = there ∙ ap some filled in right₃ k ip here (inr refl) ∙ sym here
      ]

-- A `Sync` that succeeds leaves the interface with exactly the given peers: each key that is wanted
-- has its address, and no other key has a peer. The peers are valid, and no two have one address.
pub sync-held :
    {S : Type 0} (c : Client S) (tool : Tool S)
    → IsWireGuard c tool
    → (peers : List Peer) (want : PeerMap) → wanted c [] peers ≡ ok want
    → IsSeparate want
    → (s s' : S) → sync c peers s ≡ (ok tt, s')
    → (k : String) → held tool s' k ≡ lookup k want
unfolding sync
sync-held c tool W peers want valid separate s s' h k =
    let (current, listed_peers, h₁) =
      then_ok (list_peers c s).0 (λ m. sync_to c m (wanted c [] peers)) (list_peers c s).1 h in
    let (same, reads) =
      list_peers-held c tool W s (list_peers c s).1 current
        (λ i. (listed_peers i, (list_peers c s).1)) in
    synced-held c tool W want current separate s s' (wanted-IsMap c peers [] want tt valid)
      (λ j. ap (lookup j) reads)
      (subst (λ x. sync_to c current (ok want) x ≡ (ok tt, s')) same
        (subst (λ r. sync_to c current r (list_peers c s).1 ≡ (ok tt, s')) valid h₁))
      k
