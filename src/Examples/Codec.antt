-- ===== src/Examples/Codec.antt =====
-- Codecs for a token's parts that keep what they encode.
use Prim.Native.String.{char_at}
use Prim.Native.Char.{Char, code}
use text.Mathlib.TextEquality.{Char-path}
use proxify_vpn.Auth.{Claims, Crypto, Header}
use proxify_vpn.Auth.Tokens.{IsLawful}
use proxify_vpn.Base.{
  Bool-cases, List, Option, String, [], ap, arith, if◌then◌else◌, inl, inr, none, refl, some, suc,
  sym, zero, ℕ, ◌==◌, ◌=?◌, ◌∷◌, ◌≡◌,
}
use proxify_vpn.Base.Split.{Lacks, split, split_at, split_none}
use proxify_vpn.Base.Text.{contains, ◌<>◌}
use proxify_vpn.Errors.{ok}
use proxify_vpn.Keys.{raw_length}

abbrev pub dot : Char
dot = char_at "." 0

-- A dot is written `d`; any other character stands after a `c`.
unfoldable pub escape : String → String
escape String.[] = String.[]
escape (String.◌∷◌ c s) =
    let rest = escape s in if code c == b'.' then "d" <> rest else "c" <> String.◌∷◌ c rest

unfoldable pub read_escaped : String → String
read_escaped String.[] = String.[]
read_escaped (String.◌∷◌ x String.[]) = if code x == b'd' then "." else ""
read_escaped (String.◌∷◌ x (String.◌∷◌ y s)) =
    let marked = read_escaped (String.◌∷◌ y s) in
    let plain = read_escaped s in
    if code x == b'd' then String.◌∷◌ dot marked else String.◌∷◌ y plain

read_dot : (s : String) → read_escaped ("d" <> s) ≡ "." <> read_escaped s
unfolding read_escaped
read_dot String.[] = refl
read_dot (String.◌∷◌ y s) = refl

read-escape : (s : String) → read_escaped (escape s) ≡ s
unfolding escape read_escaped
read-escape String.[] = refl
read-escape (String.◌∷◌ c s) = elim (Bool-cases (code c == b'.')) [
  | inl is_dot ↦
      rw (is_dot, read_dot (escape s), read-escape s)
        (ap (λ x. String.◌∷◌ x s) (sym (Char-path c dot (ground arith))))
  | inr other ↦ rw (other, read-escape s) refl
]

escape-Lacks : (s : String) → Lacks b'.' (escape s)
unfolding escape contains
escape-Lacks String.[] = refl
escape-Lacks (String.◌∷◌ c s) = elim (Bool-cases (code c == b'.')) [
  | inl is_dot ↦ rw is_dot (escape-Lacks s)
  | inr other ↦ rw other (ground (arith, escape-Lacks s))
]

-- A number in strokes.
unfoldable pub strokes : ℕ → String
strokes zero = ""
strokes (suc n) = "i" <> strokes n

strokes-length : (n : ℕ) → raw_length (strokes n) ≡ n
unfolding strokes raw_length
strokes-length zero = refl
strokes-length (suc n) = ap suc (strokes-length n)

strokes-Lacks : (n : ℕ) → Lacks b'.' (strokes n)
unfolding strokes contains
strokes-Lacks zero = refl
strokes-Lacks (suc n) = strokes-Lacks n

abbrev pub claims_in : List String → Option Claims
claims_in (a ∷ b ∷ c ∷ d ∷ []) = some (record {
  subject = read_escaped a;
  device_id = read_escaped b;
  issued_at = raw_length c;
  expires = raw_length d;
})
claims_in _ = none

abbrev pub header_in : List String → Option Header
header_in (a ∷ b ∷ []) = some (record { alg = read_escaped a; typ = read_escaped b })
header_in _ = none

abbrev pub toy_crypto : Crypto
toy_crypto = record {
  bcrypt_hash = λ plain. ok ("hash of " <> plain);
  bcrypt_matches = λ hash plain. hash =? "hash of " <> plain;
  hmac = λ secret msg. secret <> msg;
  sha256 = λ s. "digest of " <> s;
  random = λ n. ok (strokes n);
  encode64 = escape;
  decode64 = λ s. some (read_escaped s);
  marshal_header = λ h. escape h.alg <> "." <> escape h.typ;
  unmarshal_header = λ s. header_in (split b'.' s);
  marshal_claims = λ c.
      escape c.subject
      <> "."
      <> escape c.device_id
      <> "."
      <> strokes c.issued_at
      <> "."
      <> strokes c.expires;
  unmarshal_claims = λ s. claims_in (split b'.' s);
}

pub toy_crypto-IsLawful : IsLawful toy_crypto
toy_crypto-IsLawful = record {
  decode64-encode64 = λ s. ap some (read-escape s);
  encode64-Lacks = escape-Lacks;
  unmarshal-marshal_header = λ h.
      rw
        (
          split_at dot (escape h.alg) (escape h.typ) (escape-Lacks h.alg),
          split_none b'.' (escape h.typ) (escape-Lacks h.typ),
          read-escape h.alg,
          read-escape h.typ,
        )
        refl;
  unmarshal-marshal_claims = λ c.
      rw
        (
          split_at dot (escape c.subject)
              (escape c.device_id <> "." <> strokes c.issued_at <> "." <> strokes c.expires)
              (escape-Lacks c.subject),
          split_at dot (escape c.device_id) (strokes c.issued_at <> "." <> strokes c.expires)
              (escape-Lacks c.device_id),
          split_at dot (strokes c.issued_at) (strokes c.expires) (strokes-Lacks c.issued_at),
          split_none b'.' (strokes c.expires) (strokes-Lacks c.expires),
          read-escape c.subject,
          read-escape c.device_id,
          strokes-length c.issued_at,
          strokes-length c.expires,
        )
        refl;
}
