-- ===== src/Base/Effects.antt =====
-- A call that may fail and that changes the world: Go's `(T, error)` with the state passed on. The
-- changes made before an error stay.
use proxify_vpn.Base.{String, refl, ◌≡◌}
use proxify_vpn.Errors.{Error, Result, err, ok, wrapped}

-- `S` is everything that the call can reach: the database, the boxes, the clock.
abbrev pub Call : Type 0 → Type 0 → Type 0
Call S A = S → Result A × S

module _ {S A : Type 0} where
  abbrev pub succeed : A → Call S A
  succeed a s = (ok a, s)

  abbrev pub fail : Error → Call S A
  fail e s = (err e, s)

module _ {S A B : Type 0} where
  -- Go on with whatever the call returned, an error or not.
  abbrev pub attempt : Call S A → (Result A → Call S B) → Call S B
  attempt m k s = k (m s).0 (m s).1

  abbrev pub on_ok : (A → Call S B) → Result A → Call S B
  on_ok k (ok a) = k a
  on_ok k (err e) = fail e

  infixl 5 ◌>>=◌ ◌>>◌
  -- `if err != nil { return …, err }`
  abbrev pub ◌>>=◌ : Call S A → (A → Call S B) → Call S B
  m >>= k = attempt m (on_ok k)

  abbrev pub ◌>>◌ : Call S A → Call S B → Call S B
  m >> k = m >>= λ _. k

  -- A call whose result, an error included, is only logged.
  abbrev pub ignoring : Call S A → Call S B → Call S B
  ignoring m k = attempt m (λ _. k)

-- `fmt.Errorf("prefix: %w", err)`
abbrev pub rename_error : {A : Type 0} → String → Result A → Result A
rename_error prefix (ok a) = ok a
rename_error prefix (err e) = err (wrapped prefix e)

abbrev pub prefixed : {S A : Type 0} → String → Call S A → Call S A
prefixed prefix m s = (rename_error prefix (m s).0, (m s).1)

-- A chain that succeeds went on from a success.
pub then_ok :
    {S A B : Type 0} (r : Result A) (k : A → Call S B) (s : S) {b : B} {s' : S}
    → on_ok k r s ≡ (ok b, s')
    → (a : A) × (r ≡ ok a) × (k a s ≡ (ok b, s'))
then_ok (ok a) k s h = (a, refl, h)
then_ok (err e) k s h = absurd (cc)
