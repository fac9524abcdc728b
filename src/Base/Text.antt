-- ===== src/Base/Text.antt =====
-- Go's `strings` over native texts, character by character: `TrimSpace`, `ToLower`, `EqualFold`,
-- `HasPrefix`, `len`, `<`
-- and decimal `%d`. Letters change case in ASCII only.
use Prim.Native.Char.{Char, code}
use Prim.Native.String.{char_at}
use proxify_vpn.Base.{
  Bool, String, String_discrete, arith, false, if◌then◌else◌, leb, ltb, refl, suc, true, zero, ℕ,
  ◌%◌, ◌&&◌, ◌*◌, ◌+◌, ◌-◌, ◌/◌, ◌==◌, ◌=?◌, ◌^◌, ◌||◌, ◌≡◌,
}

-- `unicode.IsSpace`
abbrev pub is_space : ℕ → Bool
is_space c =
    ((leb 9 c && leb c 13) || (c == 32 || (c == 133 || (c == 160 || c == 5760))))
    || ((leb 8192 c && leb c 8202)
        || (c == 8232 || (c == 8233 || (c == 8239 || (c == 8287 || c == 12288)))))

unfoldable pub trim_left : String → String
trim_left String.[] = String.[]
trim_left (String.◌∷◌ c s) =
    let rest = trim_left s in if is_space (code c) then rest else String.◌∷◌ c s

abbrev pub is_nil : String → Bool
is_nil String.[] = true
is_nil (String.◌∷◌ c s) = false

unfoldable pub trim_right : String → String
trim_right String.[] = String.[]
trim_right (String.◌∷◌ c s) =
    let rest = trim_right s in
    if is_space (code c) && is_nil rest then String.[] else String.◌∷◌ c rest

-- `strings.TrimSpace`
unfoldable pub trim_space : String → String
unfolding trim_left trim_right
trim_space s = trim_left (trim_right s)

abbrev pub lower_char : Char → Char
lower_char c =
    if leb b'A' (code c) && leb (code c) b'Z'
    then char_at "abcdefghijklmnopqrstuvwxyz" (code c - 65)
    else c

-- `strings.ToLower`
unfoldable pub to_lower : String → String
to_lower String.[] = String.[]
to_lower (String.◌∷◌ c s) = String.◌∷◌ (lower_char c) (to_lower s)

-- `strings.EqualFold`
unfoldable pub equal_fold : String → String → Bool
unfolding to_lower String_discrete
equal_fold s t = to_lower s =? to_lower t

-- Go's `s < t`, which compares bytes: the order of UTF-8 is that of the code points.
unfoldable pub text_before : String → String → Bool
text_before String.[] String.[] = false
text_before String.[] (String.◌∷◌ d t) = true
text_before (String.◌∷◌ c s) String.[] = false
text_before (String.◌∷◌ c s) (String.◌∷◌ d t) =
    ltb (code c) (code d) || (code c == code d && text_before s t)

pub text_before-asym : (s t : String) → text_before s t ≡ true → text_before t s ≡ false
unfolding text_before
text_before-asym String.[] String.[] h = refl
text_before-asym String.[] (String.◌∷◌ d t) h = refl
text_before-asym (String.◌∷◌ c s) String.[] h = cc
text_before-asym (String.◌∷◌ c s) (String.◌∷◌ d t) h = ground (arith, text_before-asym s t)

-- "Not before" is transitive.
pub text_before_trans :
    (s t u : String) → text_before t s ≡ false → text_before u t ≡ false → text_before u s ≡ false
unfolding text_before
text_before_trans String.[] t String.[] h k = refl
text_before_trans String.[] String.[] (String.◌∷◌ e u) h k = refl
text_before_trans String.[] (String.◌∷◌ d t) (String.◌∷◌ e u) h k = refl
text_before_trans (String.◌∷◌ c s) String.[] u h k = cc
text_before_trans (String.◌∷◌ c s) (String.◌∷◌ d t) String.[] h k = cc
text_before_trans (String.◌∷◌ c s) (String.◌∷◌ d t) (String.◌∷◌ e u) h k =
    ground (arith, text_before_trans s t u)

-- `len` of a string: its bytes in UTF-8.
abbrev pub char_bytes : ℕ → ℕ
char_bytes c = if ltb c 128 then 1 else (if ltb c 2048 then 2 else (if ltb c 65536 then 3 else 4))

unfoldable pub byte_length : String → ℕ
byte_length String.[] = 0
byte_length (String.◌∷◌ c s) = char_bytes (code c) + byte_length s

-- `strings.HasPrefix`
unfoldable pub has_prefix : String → String → Bool
has_prefix s String.[] = true
has_prefix String.[] (String.◌∷◌ d t) = false
has_prefix (String.◌∷◌ c s) (String.◌∷◌ d t) = code c == code d && has_prefix s t

-- `strings.Contains` of one character, and `strings.HasSuffix` of one.
unfoldable pub contains : ℕ → String → Bool
contains k String.[] = false
contains k (String.◌∷◌ c s) = code c == k || contains k s

unfoldable pub ends_with : ℕ → String → Bool
ends_with k String.[] = false
ends_with k (String.◌∷◌ c String.[]) = code c == k
ends_with k (String.◌∷◌ c (String.◌∷◌ d s)) = ends_with k (String.◌∷◌ d s)

-- The first `n` characters and the rest. (`s[:n]`, `s[n:]`)
unfoldable pub take_text : ℕ → String → String
take_text zero s = String.[]
take_text (suc n) String.[] = String.[]
take_text (suc n) (String.◌∷◌ c s) = String.◌∷◌ c (take_text n s)

unfoldable pub drop_text : ℕ → String → String
drop_text zero s = s
drop_text (suc n) String.[] = String.[]
drop_text (suc n) (String.◌∷◌ c s) = drop_text n s

-- `%d`, on fuel: a number has fewer digits than its value.
unfoldable pub show_digits : ℕ → ℕ → String → String
show_digits zero n acc = acc
show_digits (suc fuel) n acc =
    let shown = String.◌∷◌ (char_at "0123456789" (n % 10)) acc in
    elim (ltb n 10) [ true ↦ shown | false ↦ show_digits fuel (n / 10) shown ]

unfoldable pub show_number : ℕ → String
unfolding show_digits
show_number n = show_digits (suc n) n String.[]

infixr 60 ◌<>◌
abbrev pub ◌<>◌ : String → String → String
String.[] <> t = t
(String.◌∷◌ c s) <> t = String.◌∷◌ c (s <> t)

-- `netip.Addr.String` of an IPv4 address.
unfoldable pub show_ip : ℕ → String
unfolding show_number
show_ip a =
    show_number (a / 2 ^ 24 % 256)
    <> "."
    <> show_number (a / 2 ^ 16 % 256)
    <> "."
    <> show_number (a / 2 ^ 8 % 256)
    <> "."
    <> show_number (a % 256)

-- `fmt.Sprintf("%s:%d", host, port)`
unfoldable pub host_port : String → ℕ → String
unfolding show_number
host_port host port = host <> ":" <> show_number port

show_ip_test : show_ip (10 * 2 ^ 24 + 77 * 2 ^ 16 + 5) ≡ "10.77.0.5"
unfolding show_ip
show_ip_test = refl

trim_space_test : to_lower (trim_space " De-FSN-1\n") ≡ "de-fsn-1"
unfolding to_lower trim_space
trim_space_test = refl
