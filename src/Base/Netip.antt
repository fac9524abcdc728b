-- ===== src/Base/Netip.antt =====
-- Go's `net/netip` on IPv4: `ParseAddr` and `ParsePrefix`. Whatever is not IPv4 reads as none.
pub mod RoundTrip
use Prim.Native.Char.{Char, code}
use proxify_vpn.Base.{
  Bool, List, Option, String, [], if◌then◌else◌, leb, none, not, some, ℕ, ◌&&◌, ◌*◌, ◌+◌, ◌-◌, ◌==◌,
  ◌^◌, ◌∷◌,
}
use proxify_vpn.Base.Split.{split}
use proxify_vpn.Base.Text.{is_nil}

abbrev pub is_decimal : Char → Bool
is_decimal c = leb b'0' (code c) && leb (code c) b'9'

-- The digits of a field, up to `most`.
unfoldable pub parse_digits : ℕ → ℕ → String → Option ℕ
parse_digits most n String.[] = some n
parse_digits most n (String.◌∷◌ c s) =
    let rest = parse_digits most (n * 10 + (code c - b'0')) s in
    if is_decimal c && leb (n * 10 + (code c - b'0')) most then rest else none

-- A field has a digit, and no zero before its digits.
unfoldable pub parse_field : ℕ → String → Option ℕ
unfolding parse_digits
parse_field most String.[] = none
parse_field most (String.◌∷◌ c s) =
    if code c == b'0' && not (is_nil s) then none else parse_digits most 0 (String.◌∷◌ c s)

abbrev pub join_octets : Option ℕ → Option ℕ → Option ℕ → Option ℕ → Option ℕ
join_octets (some a) (some b) (some c) (some d) = some (a * 2 ^ 24 + b * 2 ^ 16 + c * 2 ^ 8 + d)
join_octets _ _ _ _ = none

abbrev pub four_fields : List String → Option ℕ
four_fields (a ∷ b ∷ c ∷ d ∷ []) =
    join_octets (parse_field 255 a) (parse_field 255 b) (parse_field 255 c) (parse_field 255 d)
four_fields _ = none

-- `ParseAddr`
unfoldable pub parse_ip4 : String → Option ℕ
unfolding split parse_field
parse_ip4 s = four_fields (split b'.' s)

abbrev pub when_some : {A B : Type 0} → Option A → Option B → Option B
when_some none b = none
when_some (some a) b = b

abbrev pub address_and_bits : List String → Option ℕ
address_and_bits (a ∷ bits ∷ []) = when_some (parse_field 32 bits) (parse_ip4 a)
address_and_bits _ = none

-- `ParsePrefix`, of which only the address is kept.
unfoldable pub parse_prefix : String → Option ℕ
unfolding split parse_field parse_ip4
parse_prefix s = address_and_bits (split b'/' s)
