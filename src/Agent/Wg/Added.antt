-- ===== src/Agent/Wg/Added.antt =====
-- The loop of `Sync` that sets the peers that differ.
use proxify_vpn.Agent.Listing.{PeerMap}
use proxify_vpn.Agent.Wg.{Client, same_ip, set_key, set_wanted}
use proxify_vpn.Agent.Wg.Removed.{true-false}
use proxify_vpn.Agent.Wg.Tool.{IsWireGuard, Tool, held, set_key-held}
use proxify_vpn.Base.{
  =?-eq, =?-refl, All, Bool-cases, Option, String, [], ap, false, inl, inr, none, some, subst, sym,
  true, ℕ, ◌<◌, ◌=?◌, ◌^◌, ◌∙◌, ◌∷◌, ◌≡◌, ◌⊎◌,
}
use proxify_vpn.Base.Effects.{then_ok}
use proxify_vpn.Base.Rows.{exists_row}
use proxify_vpn.Edge.Fake.{keyed_by, lookup}
use proxify_vpn.Errors.{ok}

-- No two of the wanted keys have one address, and each has an address of 32 bits.
pub record IsSeparate (want : PeerMap) : Type 0 where
  pub filled : (k : String) (o : Option ℕ) → lookup k want ≡ some o → (ip : ℕ) × (o ≡ some ip)
  pub apart :
      (k l : String) (ip : ℕ)
      → lookup k want ≡ some (some ip)
      → lookup l want ≡ some (some ip)
      → k ≡ l
  pub in_range : (k : String) (ip : ℕ) → lookup k want ≡ some (some ip) → ip < 2 ^ 32

pub none-some : {A : Type 0} {a : A} → none ≡ some a → ⊥
none-some e = cc

pub some_inj : {A : Type 0} {a b : A} → some a ≡ some b → a ≡ b
some_inj e = cc

module _ {S : Type 0} (c : Client S) (tool : Tool S) (W : IsWireGuard c tool)
    (want current : PeerMap) (separate : IsSeparate want) where
  -- The peers that are right: those that the loop has set or will not touch.
  abbrev pub IsRight : PeerMap → S → Type 0
  IsRight rest s =
      (k : String) (ip : ℕ)
      → lookup k want ≡ some (some ip)
      → (same_ip (lookup k current) ip ≡ true) ⊎ (exists_row (keyed_by k) rest ≡ false)
      → held tool s k ≡ some (some ip)

  abbrev pub HasNoOther : S → Type 0
  HasNoOther s = (k : String) → lookup k want ≡ none → held tool s k ≡ none

  -- After one call of `wg set`.
  set_first :
      (key : String) (ip : ℕ) (rest : PeerMap) (s s₁ : S)
      → lookup key want ≡ some (some ip)
      → set_key c key ip s ≡ (ok tt, s₁)
      → IsRight ((key, some ip) ∷ rest) s
      → HasNoOther s
      → IsRight rest s₁ × HasNoOther s₁
  set_first key ip rest s s₁ wanted_ip done_call right no_other =
      let (at_key, absent, beside) =
        set_key-held c tool W key ip s s₁ (separate.in_range key ip wanted_ip) done_call in
      (
        λ k j kj settled. elim (Bool-cases (key =? k)) [
          | inl same ↦ here k j kj (=?-eq key k same) at_key
          | inr other ↦ beside k j other (right k j kj (behind k j other settled)) (λ e.
              differ k other (separate.apart key k ip wanted_ip (kj ∙ ap (λ x. some (some x)) e)))
        ],
        λ k none_k. elim (Bool-cases (key =? k)) [
          | inl same ↦ absurd (
              none-some (sym none_k ∙ ap (λ x. lookup x want) (sym (=?-eq key k same)) ∙ wanted_ip))
          | inr other ↦ absent k other (no_other k none_k)
        ],
      )
    where
      here :
          (k : String) (j : ℕ)
          → lookup k want ≡ some (some j)
          → key ≡ k
          → held tool s₁ key ≡ some (some ip)
          → held tool s₁ k ≡ some (some j)
      here k j kj e at_key =
          ap (held tool s₁) (sym e) ∙ at_key ∙ (sym wanted_ip ∙ ap (λ x. lookup x want) e ∙ kj)

      behind :
          (k : String) (j : ℕ)
          → (key =? k) ≡ false
          → (same_ip (lookup k current) j ≡ true) ⊎ (exists_row (keyed_by k) rest ≡ false)
          → (same_ip (lookup k current) j ≡ true)
            ⊎ (exists_row (keyed_by k) ((key, some ip) ∷ rest) ≡ false)
      behind k j other (inl same) = inl same
      behind k j other (inr gone) = inr (rw other gone)

      differ : (k : String) → (key =? k) ≡ false → key ≡ k → ⊥
      differ k other e = true-false (ap (λ x. key =? x) e) (=?-refl key) other

  -- An entry that is right already is passed over.
  pass_first :
      (key : String) (ip : ℕ) (rest : PeerMap) (s : S)
      → lookup key want ≡ some (some ip)
      → same_ip (lookup key current) ip ≡ true
      → IsRight ((key, some ip) ∷ rest) s
      → IsRight rest s
  pass_first key ip rest s wanted_ip same right k j kj (inl same_k) = right k j kj (inl same_k)
  pass_first key ip rest s wanted_ip same right k j kj (inr gone) = elim (Bool-cases (key =? k)) [
    | inl here ↦ right k j kj (inl (moved (=?-eq key k here)))
    | inr other ↦ right k j kj (inr (rw other gone))
  ]
    where
      moved : key ≡ k → same_ip (lookup k current) j ≡ true
      moved e =
          ap (λ x. same_ip (lookup x current) j) (sym e)
          ∙ ap (same_ip (lookup key current))
              (some_inj (some_inj (sym kj ∙ ap (λ x. lookup x want) (sym e) ∙ wanted_ip)))
          ∙ same

  -- One round of the loop, and what is left to do.
  round :
      (key : String) (ip : ℕ) (rest : PeerMap) (s s' : S)
      → lookup key want ≡ some (some ip)
      → set_wanted c current ((key, some ip) ∷ rest) s ≡ (ok tt, s')
      → IsRight ((key, some ip) ∷ rest) s
      → HasNoOther s
      → (s₁ : S) × (set_wanted c current rest s₁ ≡ (ok tt, s')) × IsRight rest s₁ × HasNoOther s₁
  unfolding set_wanted
  round key ip rest s s' wanted_ip h right no_other =
      elim (Bool-cases (same_ip (lookup key current) ip)) [
        | inl same ↦ (s, rw same at h, pass_first key ip rest s wanted_ip same right, no_other)
        | inr differs ↦
            let (u, e, after_call) =
              then_ok (set_key c key ip s).0 (λ _. set_wanted c current rest) (set_key c key ip s).1
                (rw differs at h) in
            let (right₁, no_other₁) =
              set_first key ip rest s (set_key c key ip s).1 wanted_ip
                (λ i. (e i, (set_key c key ip s).1)) right no_other in
            ((set_key c key ip s).1, after_call, right₁, no_other₁)
      ]

  -- The loop sets every wanted peer that was not right, and adds no other.
  pub set_wanted-held :
      (entries : PeerMap) (s s' : S)
      → All (λ e. lookup e.0 want ≡ some e.1) entries
      → set_wanted c current entries s ≡ (ok tt, s')
      → IsRight entries s
      → HasNoOther s
      → IsRight [] s' × HasNoOther s'
  unfolding set_wanted
  set_wanted-held [] s s' known h right no_other =
      subst (λ x. IsRight [] x × HasNoOther x) (ap (λ x. x.1) h) (right, no_other)
  set_wanted-held ((key, o) ∷ entries) s s' known h right no_other =
      let (ip, e) = separate.filled key o known.0 in
      let (s₁, rest, right₁, no_other₁) =
        round key ip entries s s' (known.0 ∙ ap some e)
          (subst (λ x. set_wanted c current ((key, x) ∷ entries) s ≡ (ok tt, s')) e h)
          (subst (λ x. IsRight ((key, x) ∷ entries) s) e right) no_other in
      set_wanted-held entries s₁ s' known.1 rest right₁ no_other₁
