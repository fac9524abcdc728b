-- ===== src/Api/Identifier/Phones.antt =====
-- `normalizePhone` of server/internal/api/identifier.go: the form of its results, and the four ways
-- of typing one number.
use Prim.Native.Char.{Char, code}
use proxify_vpn.Api.Identifier.{is_digit, normalize_phone, only_digits, phone_of, without_first}
use proxify_vpn.Base.{
  Bool, Bool-cases, String, ap, arith, false, inl, inr, ltb, refl, true, ◌&&◌, ◌+◌, ◌==◌, ◌||◌, ◌∙◌,
  ◌≡◌, ◌≤◌,
}
use proxify_vpn.Base.Text.{
  byte_length, has_prefix, is_space, trim_left, trim_right, trim_space, ◌<>◌,
}
use proxify_vpn.Errors.{ok}

-- A text of digits only.
unfoldable pub IsDigits : String → Type 0
IsDigits String.[] = Unit
IsDigits (String.◌∷◌ c s) = (is_digit c ≡ true) × IsDigits s

only_digits-IsDigits : (s : String) → IsDigits (only_digits s)
unfolding only_digits IsDigits
only_digits-IsDigits String.[] = tt
only_digits-IsDigits (String.◌∷◌ c s) = elim (Bool-cases (is_digit c)) [
  | inl yes_digit ↦ rw yes_digit (yes_digit, only_digits-IsDigits s)
  | inr other ↦ rw other (only_digits-IsDigits s)
]

only_digits_fixed : (s : String) → IsDigits s → only_digits s ≡ s
unfolding only_digits IsDigits
only_digits_fixed String.[] h = refl
only_digits_fixed (String.◌∷◌ c s) h = rw (h.0, only_digits_fixed s h.1) refl

length-234 : (d : String) → byte_length ("234" <> d) ≡ 3 + byte_length d
unfolding byte_length
length-234 d = ground arith

length-0 : (d : String) → byte_length ("0" <> d) ≡ 1 + byte_length d
unfolding byte_length
length-0 d = refl

IsDigits-234 : (d : String) → IsDigits d → IsDigits ("234" <> d)
unfolding IsDigits
IsDigits-234 d h = (refl, (refl, (refl, h)))

only-plus : (d : String) → only_digits ("+" <> d) ≡ only_digits d
unfolding only_digits
only-plus d = refl

prefix-234 : (d : String) → has_prefix ("234" <> d) "234" ≡ true
unfolding has_prefix
prefix-234 d = ground arith

digit-no_space : (c : Char) → is_digit c ≡ true → is_space (code c) ≡ false
digit-no_space c h = ground arith

trim_right-digits : (s : String) → IsDigits s → trim_right s ≡ s
unfolding trim_right IsDigits
trim_right-digits String.[] h = refl
trim_right-digits (String.◌∷◌ c s) h = rw (digit-no_space c h.0, trim_right-digits s h.1) refl

trim_left-digits : (s : String) → IsDigits s → trim_left s ≡ s
unfolding trim_left IsDigits
trim_left-digits String.[] h = refl
trim_left-digits (String.◌∷◌ c s) h = rw (digit-no_space c h.0) refl

trim_space-digits : (s : String) → IsDigits s → trim_space s ≡ s
unfolding trim_space
trim_space-digits s h = ap trim_left (trim_right-digits s h) ∙ trim_left-digits s h

no_plus : (s : String) → IsDigits s → has_prefix s "+" ≡ false
unfolding has_prefix IsDigits
no_plus String.[] h = refl
no_plus (String.◌∷◌ c s) h = ground arith

plain : (s : String) → IsDigits s → normalize_phone s ≡ phone_of false s
unfolding normalize_phone
plain s h = rw (trim_space-digits s h, no_plus s h, only_digits_fixed s h) refl

signed : (s : String) → IsDigits s → normalize_phone ("+" <> s) ≡ phone_of true s
unfolding normalize_phone trim_space trim_right trim_left only_digits has_prefix
signed s h = rw (only_digits_fixed s h) refl

-- A ten-digit local number gives the same account however it is typed: bare, with the trunk 0, with
-- the country code, or with the country code and a '+'.
pub normalize_phone-same :
    (d : String)
    → IsDigits d
    → byte_length d ≡ 10
    → (normalize_phone d ≡ ok ("+234" <> d))
      × (normalize_phone ("0" <> d) ≡ ok ("+234" <> d))
      × (normalize_phone ("234" <> d) ≡ ok ("+234" <> d))
      × (normalize_phone ("+234" <> d) ≡ ok ("+234" <> d))
unfolding phone_of IsDigits
normalize_phone-same d h ten = (
  plain d h ∙ ground arith,
  plain ("0" <> d) (refl, h) ∙ ground arith,
  plain ("234" <> d) (IsDigits-234 d h) ∙ ground arith,
  signed ("234" <> d) (IsDigits-234 d h) ∙ ground arith,
)

rest-length :
    (d : String)
    → IsDigits d
    → byte_length d ≡ 11
    → IsDigits (without_first d) × (byte_length (without_first d) ≡ 10)
unfolding IsDigits byte_length
rest-length String.[] h eleven = absurd (ground arith)
rest-length (String.◌∷◌ c s) h eleven = (h.1, ground (arith, h.0))

-- A '+' and 8 to 15 digits.
abbrev pub IsE164 : String → Type 0
IsE164 p =
    (ds : String) × (p ≡ "+" <> ds) × IsDigits ds × (8 ≤ byte_length ds) × (byte_length ds ≤ 15)

phone_of-IsE164 : (plus : Bool) (d p : String) → IsDigits d → phone_of plus d ≡ ok p → IsE164 p
unfolding phone_of
phone_of-IsE164 true d p h e = elim (Bool-cases (ltb (byte_length d) 8 || ltb 15 (byte_length d))) [
  | inl out ↦ absurd (ground arith)
  | inr within ↦ (d, ground arith, h, ground arith, ground arith)
]
phone_of-IsE164 false d p h e = elim (Bool-cases (has_prefix d "234" && byte_length d == 13)) [
  | inl full ↦ (d, ground arith, h, ground arith, ground arith)
  | inr not_full ↦ elim (Bool-cases (has_prefix d "0" && byte_length d == 11)) [
    | inl trunk ↦
        let (rest, ten) = rest-length d h (ground arith) in
        (
          "234" <> without_first d,
          ground arith,
          IsDigits-234 (without_first d) rest,
          ground (arith, length-234 (without_first d)),
          ground (arith, length-234 (without_first d)),
        )
    | inr no_trunk ↦ elim (Bool-cases (byte_length d == 10)) [
      | inl ten ↦ (
        "234" <> d,
        ground arith,
        IsDigits-234 d h,
        ground (arith, length-234 d),
        ground (arith, length-234 d),
      )
      | inr other ↦ absurd (ground arith)
    ]
  ]
]

-- What `normalizePhone` accepts, it turns into a '+' and 8 to 15 digits.
pub normalize_phone-IsE164 : (raw p : String) → normalize_phone raw ≡ ok p → IsE164 p
unfolding normalize_phone
normalize_phone-IsE164 raw p h =
    phone_of-IsE164 (has_prefix (trim_space raw) "+") (only_digits raw) p (only_digits-IsDigits raw)
      h
