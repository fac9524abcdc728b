-- ===== src/Agent/Wg/Removed.antt =====
-- The loop of `Sync` that removes the peers that are not wanted.
use proxify_vpn.Agent.Listing.{PeerMap}
use proxify_vpn.Agent.Wg.{Client, is_some, remove_key, remove_unwanted}
use proxify_vpn.Agent.Wg.Tool.{IsWireGuard, Tool, held, remove_key-held}
use proxify_vpn.Base.{
  =?-eq, Bool, Bool-cases, Option, String, [], ap, arith, false, if◌then◌else◌, inl, inr, none,
  refl, sym, true, ℕ, ◌=?◌, ◌∙◌, ◌∷◌, ◌≡◌, ◌⊎◌,
}
use proxify_vpn.Base.Effects.{then_ok}
use proxify_vpn.Base.Rows.{exists_row}
use proxify_vpn.Edge.Fake.{keyed_by, lookup}
use proxify_vpn.Errors.{ok}

pub true-false : {a b : Bool} → a ≡ b → a ≡ true → b ≡ false → ⊥
true-false e p q = cc

module _ {S : Type 0} (c : Client S) (tool : Tool S) (W : IsWireGuard c tool) (want : PeerMap) where
  unwanted_other :
      (key k : String)
      → is_some (lookup key want) ≡ false
      → is_some (lookup k want) ≡ true
      → (key =? k) ≡ false
  unwanted_other key k gone there = elim (Bool-cases (key =? k)) [
    | inl same ↦
        absurd (true-false (ap (λ x. is_some (lookup x want)) (sym (=?-eq key k same))) there gone)
    | inr other ↦ other
  ]

  -- A removal that succeeded, then the rest of the loop.
  removed_first :
      (key : String) (ip : Option ℕ) (current : PeerMap) (s s' : S)
      → is_some (lookup key want) ≡ false
      → remove_unwanted c want ((key, ip) ∷ current) s ≡ (ok tt, s')
      → (s₁ : S) × ((k : String) → held tool s₁ k ≡ (if key =? k then none else held tool s k))
        × (remove_unwanted c want current s₁ ≡ (ok tt, s'))
  unfolding remove_unwanted
  removed_first key ip current s s' goes h =
      let (u, e, rest) =
        then_ok (remove_key c key s).0 (λ _. remove_unwanted c want current) (remove_key c key s).1
          (rw goes at h) in
      (
        (remove_key c key s).1,
        remove_key-held c tool W key s (remove_key c key s).1 (λ i. (e i, (remove_key c key s).1)),
        rest,
      )

  kept_first :
      (key : String) (ip : Option ℕ) (current : PeerMap) (s s' : S)
      → is_some (lookup key want) ≡ true
      → remove_unwanted c want ((key, ip) ∷ current) s ≡ (ok tt, s')
      → remove_unwanted c want current s ≡ (ok tt, s')
  unfolding remove_unwanted
  kept_first key ip current s s' stays h = rw stays at h

  unlisted_end : (s s' : S) → remove_unwanted c want [] s ≡ (ok tt, s') → s ≡ s'
  unfolding remove_unwanted
  unlisted_end s s' h = ap (λ x. x.1) h

  -- The loop that removes leaves the wanted keys as they are,
  pub wanted_kept :
      (current : PeerMap) (s s' : S)
      → remove_unwanted c want current s ≡ (ok tt, s')
      → (k : String) → is_some (lookup k want) ≡ true
      → held tool s' k ≡ held tool s k
  wanted_kept [] s s' h k there = ap (λ x. held tool x k) (sym (unlisted_end s s' h))
  wanted_kept ((key, ip) ∷ current) s s' h k there = elim (Bool-cases (is_some (lookup key want))) [
    | inl stays ↦ wanted_kept current s s' (kept_first key ip current s s' stays h) k there
    | inr goes ↦
        let (s₁, effect, rest) = removed_first key ip current s s' goes h in
        wanted_kept current s₁ s' rest k there
        ∙ effect k
        ∙ rw (unwanted_other key k goes there) refl
  ]

  -- and an unwanted key is gone that was not there, or that the loop came by.
  pub unwanted_gone :
      (current : PeerMap) (s s' : S)
      → remove_unwanted c want current s ≡ (ok tt, s')
      → (k : String) → is_some (lookup k want) ≡ false
      → (held tool s k ≡ none) ⊎ (exists_row (keyed_by k) current ≡ true)
      → held tool s' k ≡ none
  unwanted_gone [] s s' h k gone (inl absent) =
      ap (λ x. held tool x k) (sym (unlisted_end s s' h)) ∙ absent
  unwanted_gone [] s s' h k gone (inr listed_there) = absurd (cc)
  unwanted_gone ((key, ip) ∷ current) s s' h k gone at =
      elim (Bool-cases (is_some (lookup key want))) [
        | inl stays ↦
            unwanted_gone current s s' (kept_first key ip current s s' stays h) k gone
              (passed stays at)
        | inr goes ↦
            let (s₁, effect, rest) = removed_first key ip current s s' goes h in
            unwanted_gone current s₁ s' rest k gone (removed_at (held tool s₁ k) (effect k) at)
      ]
    where
      passed :
          is_some (lookup key want) ≡ true
          → (held tool s k ≡ none) ⊎ (exists_row (keyed_by k) ((key, ip) ∷ current) ≡ true)
          → (held tool s k ≡ none) ⊎ (exists_row (keyed_by k) current ≡ true)
      passed stays (inl absent) = inl absent
      passed stays (inr found) = elim (Bool-cases (key =? k)) [
        | inl same ↦
            absurd (true-false (ap (λ x. is_some (lookup x want)) (=?-eq key k same)) stays gone)
        | inr other ↦ inr (rw other at found)
      ]

      removed_at :
          (o : Option (Option ℕ))
          → o ≡ (if key =? k then none else held tool s k)
          → (held tool s k ≡ none) ⊎ (exists_row (keyed_by k) ((key, ip) ∷ current) ≡ true)
          → (o ≡ none) ⊎ (exists_row (keyed_by k) current ≡ true)
      removed_at o e (inl absent) = inl (ground arith)
      removed_at o e (inr found) = elim (Bool-cases (key =? k)) [
        | inl same ↦ inl (e ∙ rw same refl)
        | inr other ↦ inr (rw other at found)
      ]
