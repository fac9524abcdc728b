-- ===== src/Base/Tests.antt =====
-- Boolean tests on numbers and texts, the conditional, and case splits that keep the equation.
use Prim.Native.Nat.{ℕ, compare, Ordering}
use Prim.Native.String.{String}
use mathlib.Core.Path.{◌≡◌, refl}
use mathlib.Core.Logic.{◌↔◌, ◌⊎◌, inl, inr}
use mathlib.Core.Bool.{Bool, true, false}
use mathlib.Core.Option.{Option, none, some}
use native.Mathlib.Omega.{arith}
use text.Mathlib.Text.{◌==◌ as text_eq}
use text.Mathlib.TextEquality.{eq_iff}

abbrev pub ltb : ℕ → ℕ → Bool
ltb a b = elim (compare a b) [ Ordering.lt ↦ true | _ ↦ false ]

abbrev pub leb : ℕ → ℕ → Bool
leb a b = elim (compare a b) [ Ordering.gt ↦ false | _ ↦ true ]

infix 50 ◌==◌
abbrev pub ◌==◌ : ℕ → ℕ → Bool
a == b = elim (compare a b) [ Ordering.eq ↦ true | _ ↦ false ]

-- SQL's GREATEST, and Go's `max`.
abbrev pub greatest : ℕ → ℕ → ℕ
greatest a b = elim (compare a b) [ Ordering.lt ↦ b | _ ↦ a ]

infix 1 if◌then◌else◌
abbrev pub if◌then◌else◌ {ℓ} : {A : Type ℓ} → Bool → A → A → A
if true then x else y = x
if false then x else y = y

pub Bool-cases : (b : Bool) → (b ≡ true) ⊎ (b ≡ false)
Bool-cases true = inl refl
Bool-cases false = inr refl

pub Option-cases {ℓ} : {A : Type ℓ} (o : Option A) → (o ≡ none) ⊎ ((a : A) × (o ≡ some a))
Option-cases none = inl refl
Option-cases (some a) = inr (a, refl)

by_test : (s t : String) (b : Bool) → ((b ≡ true) ↔ (s ≡ t)) → Dec (s ≡ t)
by_test s t true h = yes (h.0 refl)
by_test s t false h = no (λ e. differ (h.1 e))
  where
    differ : false ≡ true → ⊥
    differ e = cc

unfoldable pub String_discrete : Discrete String
unfolding by_test
String_discrete s t = by_test s t (text_eq s t) (eq_iff s t)

-- `a == b` on Go strings, as a test that hands its proof to the tactics.
infix 50 ◌=?◌
abbrev pub ◌=?◌ : String → String → Bool
s =? t = elim (String_discrete s t) [ yes _ ↦ true | no _ ↦ false ]

pub =?-refl : (s : String) → (s =? s) ≡ true
=?-refl s = ground arith

pub =?-eq : (s t : String) → (s =? t) ≡ true → s ≡ t
=?-eq s t h = ground arith
