-- ===== src/Agent/Wg/Dump.antt =====
-- `ListPeers`: what `wg show … dump` prints is read back.
use Prim.Native.Char.{code}
use proxify_vpn.Agent.Listing.{PeerMap, first_part, line_peer, parse_dump, put_line, put_lines}
use proxify_vpn.Base.{
  =?-eq, All, Bool-cases, List, String, [], ap, arith, false, inl, inr, map, refl, some, sym, true,
  ◌=?◌, ◌∙◌, ◌∷◌, ◌≡◌,
}
use proxify_vpn.Base.Netip.{parse_prefix}
use proxify_vpn.Base.Split.{<>_nil, Lacks, split, split_at, split_none}
use proxify_vpn.Base.Text.{is_nil, is_space, trim_left, trim_right, trim_space, ◌<>◌}
use proxify_vpn.Edge.Fake.{put}

-- A peer's line: the key, the preshared key, the endpoint, the allowed addresses, and the rest.
pub record DumpRow : Type 0 where
  pub key : String
  pub psk : String
  pub endpoint : String
  pub allowed : String
  pub rest : String

abbrev pub print_row : DumpRow → String
print_row r = r.key <> "\t" <> r.psk <> "\t" <> r.endpoint <> "\t" <> r.allowed <> "\t" <> r.rest

-- The lines one below the other, and the whole output, which ends with a line break.
abbrev pub joined : String → List DumpRow → String
joined line [] = line
joined line (r ∷ rows) = line <> "\n" <> joined (print_row r) rows

abbrev pub print_dump : String → List DumpRow → String
print_dump header rows = joined header rows <> "\n"

-- The peers of the rows, in order.
abbrev pub put_rows : PeerMap → List DumpRow → PeerMap
put_rows m [] = m
put_rows m (r ∷ rows) = put_rows (put r.key (parse_prefix (first_part r.allowed)) m) rows

abbrev pub StartsSolid : String → Type 0
StartsSolid String.[] = ⊥
StartsSolid (String.◌∷◌ c s) = is_space (code c) ≡ false

-- A text that is there and does not end in white space.
abbrev pub EndsSolid : String → Type 0
EndsSolid s = (is_nil s ≡ false) × (trim_right s ≡ s)

pub record IsRow (r : DumpRow) : Type 0 where
  pub key_solid : StartsSolid r.key
  pub key_tab : Lacks b'\t' r.key
  pub psk_tab : Lacks b'\t' r.psk
  pub endpoint_tab : Lacks b'\t' r.endpoint
  pub allowed_tab : Lacks b'\t' r.allowed
  pub one_line : Lacks b'\n' (print_row r)
  pub rest_solid : EndsSolid r.rest

pub record IsHeader (header : String) : Type 0 where
  pub begins : StartsSolid header
  pub ends : EndsSolid header
  pub single : Lacks b'\n' header

trim_right_break : (s : String) → trim_right (s <> "\n") ≡ trim_right s
unfolding trim_right
trim_right_break String.[] = refl
trim_right_break (String.◌∷◌ c s) = rw (trim_right_break s) refl

is_nil-append : (s t : String) → is_nil t ≡ false → is_nil (s <> t) ≡ false
is_nil-append String.[] t h = h
is_nil-append (String.◌∷◌ c s) t h = refl

EndsSolid-append : (s t : String) → EndsSolid t → EndsSolid (s <> t)
unfolding trim_right
EndsSolid-append String.[] t h = h
EndsSolid-append (String.◌∷◌ c s) t h =
    let (full, same) = EndsSolid-append s t h in (refl, rw (same, full) (ground arith))

trim_left-solid : (s t : String) → StartsSolid s → trim_left (s <> t) ≡ s <> t
unfolding trim_left
trim_left-solid String.[] t h = absurd h
trim_left-solid (String.◌∷◌ c s) t h = rw h refl

row_ends : (r : DumpRow) → IsRow r → EndsSolid (print_row r)
row_ends r h = EndsSolid-append r.key _ (
    EndsSolid-append "\t" _ (
      EndsSolid-append r.psk _ (
        EndsSolid-append "\t" _ (
          EndsSolid-append r.endpoint _ (
            EndsSolid-append "\t" _
              (EndsSolid-append r.allowed _ (EndsSolid-append "\t" r.rest h.rest_solid)))))))

joined_ends :
    (line : String) (rows : List DumpRow)
    → EndsSolid line
    → All IsRow rows
    → EndsSolid (joined line rows)
joined_ends line [] h k = h
joined_ends line (r ∷ rows) h k =
    EndsSolid-append line _
      (EndsSolid-append "\n" _ (joined_ends (print_row r) rows (row_ends r k.0) k.1))

joined_starts :
    (line : String) (rows : List DumpRow)
    → StartsSolid line
    → trim_left (joined line rows) ≡ joined line rows
joined_starts line [] h = ap trim_left (sym (<>_nil line)) ∙ trim_left-solid line "" h ∙ <>_nil line
joined_starts line (r ∷ rows) h = trim_left-solid line _ h

trim_dump :
    (header : String) (rows : List DumpRow)
    → IsHeader header
    → All IsRow rows
    → trim_space (print_dump header rows) ≡ joined header rows
unfolding trim_space
trim_dump header rows h k =
    rw (trim_right_break (joined header rows), (joined_ends header rows h.ends k).1)
      (joined_starts header rows h.begins)

split-joined :
    (line : String) (rows : List DumpRow)
    → Lacks b'\n' line
    → All IsRow rows
    → split b'\n' (joined line rows) ≡ line ∷ map print_row rows
split-joined line [] h k = split_none b'\n' line h
split-joined line (r ∷ rows) h k =
    split_at "\n" line (joined (print_row r) rows) h
    ∙ ap (λ ls. line ∷ ls) (split-joined (print_row r) rows k.0.one_line k.1)

not_empty : (s : String) → is_nil s ≡ false → (s =? "") ≡ false
not_empty s full = elim (Bool-cases (s =? "")) [
  | inl empty ↦ absurd (both full (ap is_nil (=?-eq s "" empty)))
  | inr other ↦ other
]
  where
    both : is_nil s ≡ false → is_nil s ≡ true → ⊥
    both a b = cc

solid_line : (line : String) → StartsSolid line → EndsSolid line → (trim_space line =? "") ≡ false
unfolding trim_space
solid_line line starts (full, same) =
    rw (same, ap trim_left (sym (<>_nil line)) ∙ trim_left-solid line "" starts ∙ <>_nil line)
      (not_empty line full)

StartsSolid-append : (s t : String) → StartsSolid s → StartsSolid (s <> t)
StartsSolid-append String.[] t h = absurd h
StartsSolid-append (String.◌∷◌ c s) t h = h

line_peer-print_row :
    (r : DumpRow)
    → IsRow r
    → line_peer (print_row r) ≡ some (r.key, parse_prefix (first_part r.allowed))
unfolding line_peer
line_peer-print_row r h =
    rw
      (
        solid_line (print_row r) (StartsSolid-append r.key _ h.key_solid) (row_ends r h),
        split_at "\t" r.key _ h.key_tab,
        split_at "\t" r.psk _ h.psk_tab,
        split_at "\t" r.endpoint _ h.endpoint_tab,
        split_at "\t" r.allowed r.rest h.allowed_tab,
      )
      refl

put_lines-put_rows :
    (m : PeerMap) (rows : List DumpRow)
    → All IsRow rows
    → put_lines m (map print_row rows) ≡ put_rows m rows
put_lines-put_rows m [] h = refl
put_lines-put_rows m (r ∷ rows) h =
    ap (λ o. put_lines (put_line o m) (map print_row rows)) (line_peer-print_row r h.0)
    ∙ put_lines-put_rows (put r.key (parse_prefix (first_part r.allowed)) m) rows h.1

-- What `wg show … dump` prints is read back row by row.
pub parse_dump-print_dump :
    (header : String) (rows : List DumpRow)
    → IsHeader header
    → All IsRow rows
    → parse_dump (print_dump header rows) ≡ put_rows [] rows
unfolding parse_dump
parse_dump-print_dump header rows h k =
    rw (trim_dump header rows h k, split-joined header rows h.single k)
      (put_lines-put_rows [] rows k)
