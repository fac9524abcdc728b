-- ===== src/Api/Identifier.antt =====
-- server/internal/api/identifier.go: what the user typed, as an e-mail address or an E.164 number.
pub mod Phones
use Prim.Native.Char.{Char, code}
use Prim.Native.String
use proxify_vpn.Base.{
  Bool, String, false, if◌then◌else◌, leb, ltb, not, refl, true, ◌&&◌, ◌==◌, ◌=?◌, ◌||◌, ◌≡◌,
}
use proxify_vpn.Base.Text.{byte_length, contains, ends_with, has_prefix, to_lower, trim_space, ◌<>◌}
use proxify_vpn.Errors.{Error, Result, err, ok, text}

abbrev pub is_digit : Char → Bool
is_digit c = leb b'0' (code c) && leb (code c) b'9'

-- The digits that the loop of `normalizePhone` collects.
unfoldable pub only_digits : String → String
only_digits String.[] = String.[]
only_digits (String.◌∷◌ c s) =
    let rest = only_digits s in if is_digit c then String.◌∷◌ c rest else rest

-- `d[1:]` of a text that starts with a one-byte character.
abbrev pub without_first : String → String
without_first String.[] = String.[]
without_first (String.◌∷◌ c s) = s

abbrev pub bad_identifier : Error
bad_identifier = text "identifier must be an email address or a phone number"

-- The `switch` of `normalizePhone`, on whether there is a '+' and on the digits.
unfoldable pub phone_of : Bool → String → Result String
unfolding byte_length has_prefix
phone_of true d =
    if ltb (byte_length d) 8 || ltb 15 (byte_length d) then err bad_identifier else ok ("+" <> d)
phone_of false d =
    if has_prefix d "234" && byte_length d == 13
    then ok ("+" <> d)
    else (if has_prefix d "0" && byte_length d == 11
        then ok ("+234" <> without_first d)
        else (if byte_length d == 10 then ok ("+234" <> d) else err bad_identifier))

unfoldable pub normalize_phone : String → Result String
unfolding phone_of only_digits has_prefix trim_space
normalize_phone raw = phone_of (has_prefix (trim_space raw) "+") (only_digits raw)

abbrev pub as_phone : Result String → Result (String × String)
as_phone (ok p) = ok ("", p)
as_phone (err e) = err e

-- The tests on an address, in lower case.
unfoldable pub email_of : String → Result (String × String)
unfolding byte_length contains ends_with has_prefix
email_of v =
    if ltb (byte_length v) 5 || (has_prefix v "@" || (ends_with b'@' v || not (contains b'.' v)))
    then err bad_identifier
    else ok (v, "")

-- `splitIdentifier`: the e-mail address and the phone number, one of them empty.
unfoldable pub split_identifier : String → Result (String × String)
unfolding normalize_phone email_of contains trim_space to_lower
split_identifier raw =
    let v = trim_space raw in
    if v =? ""
    then err bad_identifier
    else (if contains b'@' v then email_of (to_lower v) else as_phone (normalize_phone v))

-- The four ways of the comment.
normalize_phone_tests :
    (normalize_phone "0803 123-4567" ≡ ok "+2348031234567")
    × (normalize_phone "8031234567" ≡ ok "+2348031234567")
    × (normalize_phone "+2348031234567" ≡ ok "+2348031234567")
    × (normalize_phone "2348031234567" ≡ ok "+2348031234567")
unfolding normalize_phone
normalize_phone_tests = (refl, refl, refl, refl)
