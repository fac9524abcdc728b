-- ===== src/Base/Rows.antt =====
-- A table is a list of its rows. `SELECT`, `UPDATE … WHERE` and `EXISTS` as functions of the list,
-- with the laws by which the stores' theorems are proved.
use proxify_vpn.Base.{
  All, All-map, Bool, Bool-cases, List, Option, String, [], arith, false, if◌then◌else◌, inl, inr,
  none, refl, some, subst, suc, true, ℕ, ◌&&◌, ◌=?◌, ◌||◌, ◌∷◌, ◌≡◌,
}

module _ {ℓ} {A : Type ℓ} where
  -- The first row that matches: a query that reads one row.
  abbrev pub find_row : (A → Bool) → List A → Option A
  find_row p [] = none
  find_row p (r ∷ rs) = if p r then some r else find_row p rs

  -- Every row that matches, in the table's order.
  abbrev pub rows_where : (A → Bool) → List A → List A
  rows_where p [] = []
  rows_where p (r ∷ rs) = let rest = rows_where p rs in if p r then r ∷ rest else rest

  abbrev pub exists_row : (A → Bool) → List A → Bool
  exists_row p [] = false
  exists_row p (r ∷ rs) = p r || exists_row p rs

  abbrev pub change : (A → Bool) → (A → A) → A → A
  change p f r = if p r then f r else r

  -- `UPDATE … SET f WHERE p`.
  abbrev pub update_where : (A → Bool) → (A → A) → List A → List A
  update_where p f [] = []
  update_where p f (r ∷ rs) = change p f r ∷ update_where p f rs

  -- `RowsAffected` of that statement.
  abbrev pub affected : (A → Bool) → List A → ℕ
  affected p [] = 0
  affected p (r ∷ rs) = let n = affected p rs in if p r then suc n else n

  -- The tables have the same rows in the same order, each related to the one it was before.
  abbrev pub Pointwise : (A → A → Type 0) → List A → List A → Type 0
  Pointwise R [] [] = Unit
  Pointwise R (x ∷ xs) (y ∷ ys) = R x y × Pointwise R xs ys
  Pointwise R xs ys = ⊥

  pub Pointwise-update_where :
      (R : A → A → Type 0) (p : A → Bool) (f : A → A) (rs : List A)
      → ((r : A) → p r ≡ true → R r (f r))
      → ((r : A) → p r ≡ false → R r r)
      → Pointwise R rs (update_where p f rs)
  Pointwise-update_where R p f [] hit miss = tt
  Pointwise-update_where R p f (r ∷ rs) hit miss = (
    elim (Bool-cases (p r)) [ inl h ↦ rw h (hit r h) | inr h ↦ rw h (miss r h) ],
    Pointwise-update_where R p f rs hit miss,
  )

  pub All-update_where {κ} :
      (P : A → Type κ) (p : A → Bool) (f : A → A) (rs : List A)
      → ((r : A) → p r ≡ true → P r → P (f r))
      → All P rs
      → All P (update_where p f rs)
  All-update_where P p f [] keep h = tt
  All-update_where P p f (r ∷ rs) keep h = (head, All-update_where P p f rs keep h.1)
    where
      head : P (change p f r)
      head = elim (Bool-cases (p r)) [ inl hit ↦ rw hit (keep r hit h.0) | inr miss ↦ rw miss h.0 ]

  pub find_row-test : (p : A → Bool) (rs : List A) (r : A) → find_row p rs ≡ some r → p r ≡ true
  find_row-test p [] r h = cc
  find_row-test p (x ∷ rs) r h = ground (arith, find_row-test p rs r)

  pub find_row-All {κ} :
      (P : A → Type κ) (p : A → Bool) (rs : List A) {r : A}
      → All P rs
      → find_row p rs ≡ some r
      → P r
  find_row-All P p [] h e = elim (none≢some e) [ ]
    where
      none≢some : {a : A} → none ≡ some a → ⊥
      none≢some e = cc
  find_row-All P p (x ∷ rs) {r} h e = elim (Bool-cases (p x)) [
    | inl hit ↦ subst P (here hit) h.0
    | inr miss ↦ find_row-All P p rs h.1 (there miss)
  ]
    where
      here : p x ≡ true → x ≡ r
      here hit = ground arith

      there : p x ≡ false → find_row p rs ≡ some r
      there miss = ground arith

  -- A row is found as before, changed if the statement hits it, where no hit changes the test.
  pub find_row-update_where :
      (q p : A → Bool) (f : A → A) (rs : List A) (r : A)
      → All (λ x. p x ≡ true → q (f x) ≡ q x) rs
      → find_row q rs ≡ some r
      → find_row q (update_where p f rs) ≡ some (change p f r)
  find_row-update_where q p f [] r same h = cc
  find_row-update_where q p f (x ∷ rs) r same h = elim (Bool-cases (p x)) [
    | inl hit ↦ ground (arith, same.0 hit, find_row-update_where q p f rs r same.1)
    | inr miss ↦ ground (arith, find_row-update_where q p f rs r same.1)
  ]

  pub exists_row-All :
      (p : A → Bool) (rs : List A) → exists_row p rs ≡ false → All (λ r. p r ≡ false) rs
  exists_row-All p [] h = tt
  exists_row-All p (r ∷ rs) h = (ground arith, exists_row-All p rs (ground arith))

  pub All-exists_row :
      (p : A → Bool) (rs : List A) → All (λ r. p r ≡ false) rs → exists_row p rs ≡ false
  All-exists_row p [] h = refl
  All-exists_row p (r ∷ rs) h = ground (arith, h.0, All-exists_row p rs h.1)

  pub find_row-none :
      (p : A → Bool) (rs : List A) → find_row p rs ≡ none → All (λ r. p r ≡ false) rs
  find_row-none p [] h = tt
  find_row-none p (r ∷ rs) h = (ground arith, find_row-none p rs (ground arith))

  pub All-true {κ} : {P : A → Type κ} (rs : List A) → ((r : A) → P r) → All P rs
  All-true [] h = tt
  All-true (r ∷ rs) h = (h r, All-true rs h)

  pub All-rows_where {κ} :
      (P : A → Type κ) (p : A → Bool) (rs : List A)
      → All P rs
      → All (λ r. P r × (p r ≡ true)) (rows_where p rs)
  All-rows_where P p [] h = tt
  All-rows_where P p (r ∷ rs) h = elim (Bool-cases (p r)) [
    | inl hit ↦ rw hit ((h.0, hit), All-rows_where P p rs h.1)
    | inr miss ↦ rw miss (All-rows_where P p rs h.1)
  ]

  pub exists_row-rows_where :
      (q p : A → Bool) (rs : List A)
      → exists_row q (rows_where p rs) ≡ exists_row (λ r. p r && q r) rs
  exists_row-rows_where q p [] = refl
  exists_row-rows_where q p (r ∷ rs) = ground (arith, exists_row-rows_where q p rs)

abbrev pub listed : String → List String → Bool
listed u ids = exists_row (λ k. k =? u) ids

listed-more :
    (u : String) (x : String) (ids : List String) → listed u ids ≡ true → listed u (x ∷ ids) ≡ true
listed-more u x ids h = ground arith

-- Every element of a list is listed in it.
pub All-listed : (ids : List String) → All (λ u. listed u ids ≡ true) ids
All-listed [] = tt
All-listed (x ∷ ids) =
    (ground arith, All-map _ _ ids (λ u h. listed-more u x ids h) (All-listed ids))
