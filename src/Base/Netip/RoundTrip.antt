-- ===== src/Base/Netip/RoundTrip.antt =====
-- Addresses are read back as they are written.
use proxify_vpn.Base.{
  Bool, Bool-cases, Option, String, [], ap, arith, false, if◌then◌else◌, inl, inr, none, not, refl,
  some, suc, true, zero, ℕ, ◌%◌, ◌&&◌, ◌*◌, ◌+◌, ◌/◌, ◌<◌, ◌==◌, ◌^◌, ◌∷◌, ◌≡◌,
}
use proxify_vpn.Base.Netip.{parse_field, parse_ip4}
use proxify_vpn.Base.Split.{Lacks, split, split_at, split_none}
use proxify_vpn.Base.Text.{contains, show_ip, show_number, ◌<>◌}

-- A field is read back, and has no dot.
abbrev is_some_of : Option ℕ → ℕ → Bool
is_some_of none n = false
is_some_of (some m) n = m == n

abbrev reads_back : ℕ → Bool
reads_back n = is_some_of (parse_field 255 (show_number n)) n && not (contains b'.' (show_number n))

-- Whether every number before the bound is read back.
read_before : ℕ → Bool
read_before zero = true
read_before (suc bound) = if reads_back bound then read_before bound else false

before-reads_back :
    (bound octet : ℕ) → octet < bound → read_before bound ≡ true → reads_back octet ≡ true
unfolding read_before
before-reads_back zero octet small h = absurd (omega arith)
before-reads_back (suc bound) octet small h = elim (Bool-cases (reads_back bound)) [
  | inr unread ↦ absurd (ground arith)
  | inl last ↦ ground (arith, before-reads_back bound octet, last)
]

octet_table : read_before 256 ≡ true
unfolding read_before parse_field show_number contains
octet_table = refl

is_some_of-eq : (o : Option ℕ) (n : ℕ) → is_some_of o n ≡ true → o ≡ some n
is_some_of-eq none n h = absurd (cc)
is_some_of-eq (some m) n h = ground arith

and-true : (a b : Bool) → (a && not b) ≡ true → (a ≡ true) × (b ≡ false)
and-true true false h = (refl, refl)
and-true true true h = absurd (cc)
and-true false b h = absurd (cc)

parse_field-show_number :
    (n : ℕ) → n < 256 → (parse_field 255 (show_number n) ≡ some n) × Lacks b'.' (show_number n)
parse_field-show_number n h =
    let (a, b) = and-true _ _ (before-reads_back 256 n h octet_table) in (is_some_of-eq _ n a, b)

split_octets :
    (a b c d : String)
    → Lacks b'.' a
    → Lacks b'.' b
    → Lacks b'.' c
    → Lacks b'.' d
    → split b'.' (a <> "." <> b <> "." <> c <> "." <> d) ≡ a ∷ b ∷ c ∷ d ∷ []
split_octets a b c d ha hb hc hd =
    rw
      (
        split_at "." a (b <> "." <> c <> "." <> d) ha,
        split_at "." b (c <> "." <> d) hb,
        split_at "." c d hc,
        split_none b'.' d hd,
      )
      refl

octets_below :
    (a : ℕ)
    → (a / 2 ^ 24 % 256 < 256)
      × (a / 2 ^ 16 % 256 < 256)
      × (a / 2 ^ 8 % 256 < 256)
      × (a % 256 < 256)
octets_below a = omega arith

octets_sum :
    (a : ℕ)
    → a < 2 ^ 32
    → a / 2 ^ 24 % 256 * 2 ^ 24 + a / 2 ^ 16 % 256 * 2 ^ 16 + a / 2 ^ 8 % 256 * 2 ^ 8 + a % 256 ≡ a
octets_sum a h = omega arith

-- `ParseAddr` of what `Addr.String` writes is the address.
pub parse_ip4-show_ip : (a : ℕ) → a < 2 ^ 32 → parse_ip4 (show_ip a) ≡ some a
unfolding parse_ip4 show_ip
parse_ip4-show_ip a h =
    let (ha, hb, hc, hd) = octets_below a in
    let (ra, la) = parse_field-show_number (a / 2 ^ 24 % 256) ha in
    let (rb, lb) = parse_field-show_number (a / 2 ^ 16 % 256) hb in
    let (rc, lc) = parse_field-show_number (a / 2 ^ 8 % 256) hc in
    let (rd, ld) = parse_field-show_number (a % 256) hd in
    rw (split_octets _ _ _ _ la lb lc ld, ra, rb, rc, rd) (ap some (octets_sum a h))
