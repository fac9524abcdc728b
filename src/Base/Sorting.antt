-- ===== src/Base/Sorting.antt =====
-- `ORDER BY`, `LIMIT` and Go's `sort.SliceStable`: a stable insertion sort by a test, and its laws.
use mathlib.Core.List.Perm
use mathlib.Core.List.{Perm}
use proxify_vpn.Base.{
  All, All-map, Bool, Bool-cases, List, [], ap, arith, false, if◌then◌else◌, inl, inr, length, refl,
  suc, true, zero, ℕ, ◌∷◌, ◌≡◌, ◌≤◌,
}

module _ {ℓ} {A : Type ℓ} (before : A → A → Bool) where
  -- Insert before the first element that it must precede, so equals keep their order.
  abbrev pub insert_by : A → List A → List A
  insert_by x [] = x ∷ []
  insert_by x (y ∷ ys) = let rest = insert_by x ys in if before y x then y ∷ rest else x ∷ y ∷ ys

  abbrev pub sort_by : List A → List A
  sort_by [] = []
  sort_by (x ∷ xs) = insert_by x (sort_by xs)

  -- No element comes before its left neighbour.
  abbrev pub IsOrdered : List A → Type 0
  IsOrdered [] = Unit
  IsOrdered (x ∷ []) = Unit
  IsOrdered (x ∷ y ∷ ys) = (before y x ≡ false) × IsOrdered (y ∷ ys)

  IsOrdered-behind :
      (x y z : A) (zs : List A)
      → before z y ≡ false
      → before x y ≡ false
      → IsOrdered (insert_by x (z ∷ zs))
      → IsOrdered (y ∷ insert_by x (z ∷ zs))
  IsOrdered-behind x y z zs p q tail = elim (Bool-cases (before z x)) [
    | inl hit ↦ rw hit (p, rw hit at tail)
    | inr miss ↦ rw miss (q, rw miss at tail)
  ]

  IsOrdered-insert_by :
      ((a b : A) → before a b ≡ true → before b a ≡ false)
      → (x : A) (ys : List A) → IsOrdered ys
      → IsOrdered (insert_by x ys)
  IsOrdered-insert_by asym x [] h = tt
  IsOrdered-insert_by asym x (y ∷ []) h = elim (Bool-cases (before y x)) [
    | inl hit ↦ rw hit (asym y x hit, tt)
    | inr miss ↦ rw miss (miss, tt)
  ]
  IsOrdered-insert_by asym x (y ∷ z ∷ zs) h = elim (Bool-cases (before y x)) [
    | inl hit ↦
        rw hit
          (IsOrdered-behind x y z zs h.0 (asym y x hit) (IsOrdered-insert_by asym x (z ∷ zs) h.1))
    | inr miss ↦ rw miss (miss, h)
  ]

  pub IsOrdered-sort_by :
      ((a b : A) → before a b ≡ true → before b a ≡ false) → (xs : List A) → IsOrdered (sort_by xs)
  IsOrdered-sort_by asym [] = tt
  IsOrdered-sort_by asym (x ∷ xs) =
      IsOrdered-insert_by asym x (sort_by xs) (IsOrdered-sort_by asym xs)

  insert_by-perm : (x : A) (ys : List A) → Perm (insert_by x ys) (x ∷ ys)
  insert_by-perm x [] = Perm.refl (x ∷ [])
  insert_by-perm x (y ∷ ys) = elim (Bool-cases (before y x)) [
    | inl hit ↦ rw hit (Perm.trans (Perm.cons y (insert_by-perm x ys)) (Perm.swap x y ys))
    | inr miss ↦ rw miss (Perm.refl (x ∷ y ∷ ys))
  ]

  pub sort_by-perm : (xs : List A) → Perm (sort_by xs) xs
  sort_by-perm [] = Perm.refl []
  sort_by-perm (x ∷ xs) = Perm.trans (insert_by-perm x (sort_by xs)) (Perm.cons x (sort_by-perm xs))

  pub All-sort_by {κ} : (P : A → Type κ) (xs : List A) → All P xs → All P (sort_by xs)
  All-sort_by P [] h = tt
  All-sort_by P (x ∷ xs) h = insert_All x (sort_by xs) h.0 (All-sort_by P xs h.1)
    where
      insert_All : (x : A) (ys : List A) → P x → All P ys → All P (insert_by x ys)
      insert_All x [] p h = (p, tt)
      insert_All x (y ∷ ys) p h = elim (Bool-cases (before y x)) [
        | inl hit ↦ rw hit (h.0, insert_All x ys p h.1)
        | inr miss ↦ rw miss (p, h)
      ]

  -- The head of an ordered list is beaten by none.
  pub IsOrdered-head :
      ((a b c : A) → before b a ≡ false → before c b ≡ false → before c a ≡ false)
      → (x : A) (ys : List A) → IsOrdered (x ∷ ys)
      → All (λ y. before y x ≡ false) ys
  IsOrdered-head trans x [] h = tt
  IsOrdered-head trans x (y ∷ ys) h =
      (h.0, All-map _ _ ys (λ z k. trans x y z h.0 k) (IsOrdered-head trans y ys h.1))

abbrev pub take {ℓ} : {A : Type ℓ} → ℕ → List A → List A
take zero xs = []
take (suc n) [] = []
take (suc n) (x ∷ xs) = x ∷ take n xs

module _ {ℓ} {A : Type ℓ} where
  abbrev pub is_empty : List A → Bool
  is_empty [] = true
  is_empty (x ∷ xs) = false

  is_empty-insert_by :
      (before : A → A → Bool) (x : A) (ys : List A) → is_empty (insert_by before x ys) ≡ false
  is_empty-insert_by before x [] = refl
  is_empty-insert_by before x (y ∷ ys) = ground arith

  pub is_empty-sort_by :
      (before : A → A → Bool) (xs : List A) → is_empty (sort_by before xs) ≡ is_empty xs
  is_empty-sort_by before [] = refl
  is_empty-sort_by before (x ∷ xs) = is_empty-insert_by before x (sort_by before xs)

  All-insert_by-out {κ} :
      (P : A → Type κ) (before : A → A → Bool) (x : A) (ys : List A)
      → All P (insert_by before x ys)
      → P x × All P ys
  All-insert_by-out P before x [] h = h
  All-insert_by-out P before x (y ∷ ys) h = elim (Bool-cases (before y x)) [
    | inl hit ↦
        let k : All P (y ∷ insert_by before x ys) = rw hit at h in
        let (a, b) = All-insert_by-out P before x ys k.1 in (a, (k.0, b))
    | inr miss ↦ let k : All P (x ∷ y ∷ ys) = rw miss at h in (k.0, k.1)
  ]

  -- What holds of the sorted list holds of the list.
  pub All-sort_by-out {κ} :
      (P : A → Type κ) (before : A → A → Bool) (xs : List A) → All P (sort_by before xs) → All P xs
  All-sort_by-out P before [] h = tt
  All-sort_by-out P before (x ∷ xs) h =
      let (a, b) = All-insert_by-out P before x (sort_by before xs) h in
      (a, All-sort_by-out P before xs b)

  pub All-take {κ} : (P : A → Type κ) (n : ℕ) (xs : List A) → All P xs → All P (take n xs)
  All-take P zero xs h = tt
  All-take P (suc n) [] h = tt
  All-take P (suc n) (x ∷ xs) h = (h.0, All-take P n xs h.1)

  pub take_all : (n : ℕ) (xs : List A) → length xs ≤ n → take n xs ≡ xs
  take_all zero [] h = refl
  take_all (suc n) [] h = refl
  take_all zero (x ∷ xs) h = absurd (omega arith)
  take_all (suc n) (x ∷ xs) h = ap (◌∷◌ x) (take_all n xs (omega arith))
