-- ===== src/Base/Orders.antt =====
-- Weak orders given by a test, and their lexicographic composition: what `sort.SliceStable` wants.
use proxify_vpn.Base.{Bool, arith, false, ltb, not, true, ℕ, ◌&&◌, ◌||◌, ◌≡◌}

module _ {ℓ} {A : Type ℓ} where
  -- "Comes before" is asymmetric, and "does not come before" is transitive.
  pub record IsWeakOrder (f : A → A → Bool) : Type ℓ where
    pub asym : (a b : A) → f a b ≡ true → f b a ≡ false
    pub trans : (a b c : A) → f b a ≡ false → f c b ≡ false → f c a ≡ false

  -- By `f`, and by `g` where `f` does not tell.
  abbrev pub lex : (A → A → Bool) → (A → A → Bool) → A → A → Bool
  lex f g a b = f a b || (not (f b a) && g a b)

  abbrev pub by_number : (A → ℕ) → A → A → Bool
  by_number k a b = ltb (k a) (k b)

  -- Those that pass the test come first.
  abbrev pub by_flag : (A → Bool) → A → A → Bool
  by_flag k a b = k a && not (k b)

  pub by_number-IsWeakOrder : (k : A → ℕ) → IsWeakOrder (by_number k)
  by_number-IsWeakOrder k = record {
    asym = λ a b h. ground arith;
    trans = λ a b c h i. ground arith;
  }

  pub by_flag-IsWeakOrder : (k : A → Bool) → IsWeakOrder (by_flag k)
  by_flag-IsWeakOrder k = record { asym = λ a b h. ground arith; trans = λ a b c h i. ground arith }

  module _ (f g : A → A → Bool) (F : IsWeakOrder f) (G : IsWeakOrder g) where
    lex-asym : (a b : A) → lex f g a b ≡ true → lex f g b a ≡ false
    lex-asym a b h = ground (arith, F.asym a b, F.asym b a, G.asym a b, G.asym b a)

    lex_trans : (a b c : A) → lex f g b a ≡ false → lex f g c b ≡ false → lex f g c a ≡ false
    lex_trans a b c h i = ground (
      arith,
      F.asym a b,
      F.asym b c,
      F.asym a c,
      F.trans a b c,
      F.trans c b a,
      F.trans b a c,
      F.trans c a b,
      F.trans b c a,
      F.trans a c b,
      G.trans a b c,
    )

    pub lex-IsWeakOrder : IsWeakOrder (lex f g)
    lex-IsWeakOrder = record { asym = lex-asym; trans = lex_trans }
