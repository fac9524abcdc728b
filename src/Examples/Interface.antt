-- ===== src/Examples/Interface.antt =====
-- A box's interface that may have one peer, and a codec for keys.
use proxify_vpn.Agent.Wg.{Client, set_args}
use proxify_vpn.Agent.Wg.Added.{some_inj}
use proxify_vpn.Agent.Wg.Dump.{DumpRow, IsHeader, IsRow, print_dump}
use proxify_vpn.Agent.Wg.Tool.{IsWireGuard, Tool, held}
use proxify_vpn.Base.{
  =?-eq, =?-refl, All, Bool, Bool-cases, List, Option, String, [], ap, arith, false, if◌then◌else◌,
  inl, inr, none, refl, some, subst, sym, true, ℕ, ◌&&◌, ◌*◌, ◌+◌, ◌<◌, ◌==◌, ◌=?◌, ◌^◌, ◌∙◌, ◌∷◌,
  ◌≡◌,
}
use proxify_vpn.Base.Netip.{parse_ip4, parse_prefix}
use proxify_vpn.Base.Netip.RoundTrip.{parse_ip4-show_ip}
use proxify_vpn.Base.Split.{split}
use proxify_vpn.Base.Text.{byte_length, contains, drop_text, show_ip, trim_right, ◌<>◌}
use proxify_vpn.Errors.{Result, err, ok, ok-inj, text}
use proxify_vpn.Keys.{Base64, raw_length}
use proxify_vpn.Keys.Canonical.{IsBase64}

-- Keys of one character a byte.
abbrev one_byte : String → Option String
one_byte raw = if byte_length raw == raw_length raw then some raw else none

abbrev pub toy_base64 : Base64
toy_base64 = record {
  encode = λ raw. "AAAAAAAAAAAA" <> raw;
  decode = λ s. one_byte (drop_text 12 s);
}

one_byte-same : (s raw : String) → one_byte s ≡ some raw → byte_length raw ≡ raw_length raw
one_byte-same s raw h = ground arith

pub toy_base64-IsBase64 : IsBase64 toy_base64
unfolding byte_length drop_text
toy_base64-IsBase64 = record {
  decode-encode = λ key raw h. rw (one_byte-same (drop_text 12 key) raw h) (ground arith);
  length-encode = λ key raw h sized. rw (one_byte-same (drop_text 12 key) raw h, sized) refl;
}

abbrev pub phone_key : String
phone_key = "AAAAAAAAAAAAphonephonephonephonephonephoneXX"

abbrev pub phone_ip : ℕ
phone_ip = 10 * 2 ^ 24 + 77 * 2 ^ 16 + 2

abbrev pub phone_line : DumpRow
phone_line = record {
  key = phone_key;
  psk = "(none)";
  endpoint = "(none)";
  allowed = "10.77.0.2/32";
  rest = "0\t0\t0\toff";
}

-- Whether the phone's peer is there.
abbrev pub toy_tool : Tool Bool
toy_tool = record {
  rows = λ s. if s then phone_line ∷ [] else [];
  header = λ s. "private\tpublic\t51820\toff";
}

-- Only the phone may be set.
abbrev run_wg : List String → Bool → Result String × Bool
run_wg (op ∷ dev ∷ []) s = (ok "", s)
run_wg (op ∷ dev ∷ out ∷ []) s = (ok (print_dump (toy_tool.header s) (toy_tool.rows s)), s)
run_wg (op ∷ dev ∷ peer ∷ key ∷ gone ∷ []) s = (ok "", if key =? phone_key then false else s)
run_wg (op ∷ dev ∷ peer ∷ key ∷ ips ∷ ip ∷ []) s =
    if key =? phone_key && ip =? "10.77.0.2/32" then (ok "", true) else (err (text "wg"), s)
run_wg _ s = (err (text "wg"), s)

abbrev pub toy_wg : Client Bool
toy_wg = record {
  iface = "wg0";
  persist = true;
  runner = λ cmd args s. run_wg args s;
  keys = toy_base64;
  order = λ m. m;
}

raw_length-append : (s t : String) → raw_length (s <> t) ≡ raw_length s + raw_length t
unfolding raw_length
raw_length-append String.[] t = omega arith
raw_length-append (String.◌∷◌ c s) t = ground (arith, raw_length-append s t)

cancel_end : (s t u : String) → s <> u ≡ t <> u → s ≡ t
unfolding raw_length drop_text
cancel_end String.[] String.[] u h = refl
cancel_end String.[] (String.◌∷◌ c t) u h =
    let long = ap raw_length h in absurd (ground (arith, raw_length-append t u))
cancel_end (String.◌∷◌ c s) String.[] u h =
    let long = ap raw_length h in absurd (ground (arith, raw_length-append s u))
cancel_end (String.◌∷◌ c s) (String.◌∷◌ d t) u h =
    let tails : s ≡ t = cancel_end s t u (ap (drop_text 1) h) in cc

phone_only : (ip : ℕ) → ip < 2 ^ 32 → show_ip ip <> "/32" ≡ "10.77.0.2/32" → ip ≡ phone_ip
unfolding parse_ip4 show_ip
phone_only ip small h =
    let shown : show_ip ip ≡ "10.77.0.2" = cancel_end (show_ip ip) "10.77.0.2" "/32" h in
    some_inj (
      sym (parse_ip4-show_ip ip small)
      ∙ ap parse_ip4 shown
      ∙ parse_ip4-show_ip phone_ip (omega arith))

held_phone :
    (s : Bool) (k : String)
    → held toy_tool s k ≡ (if s && phone_key =? k then some (some phone_ip) else none)
unfolding parse_prefix split
held_phone true k = ground arith
held_phone false k = refl

pub printed : (s : Bool) → All IsRow (toy_tool.rows s)
unfolding contains trim_right
printed true = (
  record {
    key_solid = refl;
    key_tab = refl;
    psk_tab = refl;
    endpoint_tab = refl;
    allowed_tab = refl;
    one_line = refl;
    rest_solid = (refl, refl);
  },
  tt,
)
printed false = tt

pub header_printed : (s : Bool) → IsHeader (toy_tool.header s)
unfolding contains trim_right
header_printed s = record { begins = refl; ends = (refl, refl); single = refl }

-- A setting that the tool took was the phone's.
taken :
    (key : String) (ip : ℕ) (s : Bool) (out : String)
    → (run_wg (set_args toy_wg key ip) s).0 ≡ ok out
    → ((key =? phone_key) ≡ true)
      × (show_ip ip <> "/32" ≡ "10.77.0.2/32")
      × ((run_wg (set_args toy_wg key ip) s).1 ≡ true)
taken key ip s out h = ground arith

only_there :
    (s : Bool) (k : String) (j : ℕ)
    → (phone_key =? k) ≡ false
    → held toy_tool s k ≡ some (some j)
    → ⊥
only_there s k j other h = elim (Bool-cases s) [
  | inl on ↦ no_value (sym (held_phone s k ∙ rw (on, other) refl) ∙ h)
  | inr off ↦ no_value (sym (held_phone s k ∙ rw off refl) ∙ h)
]
  where
    no_value : {A : Type 0} {a : A} → none ≡ some a → ⊥
    no_value e = cc

turned : (a b : String) → (a =? b) ≡ false → (b =? a) ≡ false
turned a b h = ground arith

removed_phone :
    (key : String) (s : Bool) (k : String)
    → held toy_tool (if key =? phone_key then false else s) k
      ≡ (if key =? k then none else held toy_tool s k)
removed_phone key s k = elim (Bool-cases (key =? phone_key)) [
  | inl same ↦
      rw (same, held_phone false k, held_phone s k)
        (subst
          (λ x. none ≡ (
            if x =? k then none else (if s && phone_key =? k then some (some phone_ip) else none)))
          (sym (=?-eq key phone_key same)) (ground arith))
  | inr other ↦ elim (Bool-cases (key =? k)) [
    | inr apart ↦ rw (other, apart) refl
    | inl here ↦
        rw (other, here, held_phone s k)
          (subst (λ x. (if s && phone_key =? x then some (some phone_ip) else none) ≡ none)
            (=?-eq key k here) (rw (turned key phone_key other) (ground arith)))
  ]
]

put_phone :
    (key : String) (ip : ℕ) (s : Bool) (out : String)
    → ip < 2 ^ 32
    → (run_wg (set_args toy_wg key ip) s).0 ≡ ok out
    → held toy_tool (run_wg (set_args toy_wg key ip) s).1 key ≡ some (some ip)
put_phone key ip s out small h =
    let (same, shown, there) = taken key ip s out h in
    ap (λ x. held toy_tool x key) there
    ∙ held_phone true key
    ∙ rw (ap (λ x. phone_key =? x) (=?-eq key phone_key same) ∙ =?-refl phone_key)
        (ap (λ x. some (some x)) (sym (phone_only ip small shown)))

other_phone :
    (key : String) (ip : ℕ) (s : Bool) (out : String)
    → (run_wg (set_args toy_wg key ip) s).0 ≡ ok out
    → (k : String) → (key =? k) ≡ false
    → (phone_key =? k) ≡ false
other_phone key ip s out h k other =
    let (same, shown, there) = taken key ip s out h in
    ap (λ x. x =? k) (sym (=?-eq key phone_key same)) ∙ other

pub toy_wg-IsWireGuard : IsWireGuard toy_wg toy_tool
toy_wg-IsWireGuard = record {
  shows = λ s out h. sym (ok-inj h);
  show_quiet = λ s. refl;
  header_printable = header_printed;
  rows_printable = printed;
  removes = λ key s out h k. removed_phone key s k;
  sets = λ key ip s out small h. put_phone key ip s out small h;
  sets_no_other = λ key ip s out h k other absent.
      let (same, shown, there) = taken key ip s out h in
      ap (λ x. held toy_tool x k) there
      ∙ held_phone true k
      ∙ rw (other_phone key ip s out h k other) refl;
  sets_beside = λ key ip s out small h k j other there apart.
      absurd (only_there s k j (other_phone key ip s out h k other) there);
  saves = λ s k. refl;
  order_all = λ P m known all. all;
  order_keys = λ k m. refl;
}
