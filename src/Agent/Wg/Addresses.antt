-- ===== src/Agent/Wg/Addresses.antt =====
-- `ListPeers` of edge/internal/wg/wg.go on peers with several allowed addresses.
use proxify_vpn.Agent.Listing.{PeerMap, first_of, first_part, parse_dump}
use proxify_vpn.Agent.Wg.Dump.{
  DumpRow, IsHeader, IsRow, parse_dump-print_dump, print_dump, put_rows,
}
use proxify_vpn.Base.{All, List, String, [], ap, map, refl, ◌∙◌, ◌∷◌, ◌≡◌}
use proxify_vpn.Base.Netip.{parse_prefix}
use proxify_vpn.Base.Split.{Lacks, split_at, split_none}
use proxify_vpn.Base.Text.{◌<>◌}
use proxify_vpn.Edge.Fake.{put}

-- A peer of the interface: its key, its allowed addresses, the first one apart, and the other columns.
pub record PeerLine : Type 0 where
  pub key : String
  pub psk : String
  pub endpoint : String
  pub first : String
  pub others : List String
  pub rest : String

-- `wg` puts the addresses one behind the other, with commas.
abbrev pub with_commas : String → List String → String
with_commas first [] = first
with_commas first (next ∷ others) = first <> "," <> with_commas next others

abbrev pub row_of : PeerLine → DumpRow
row_of l = record {
  key = l.key;
  psk = l.psk;
  endpoint = l.endpoint;
  allowed = with_commas l.first l.others;
  rest = l.rest;
}

pub record IsPeerLine (l : PeerLine) : Type 0 where
  pub row : IsRow (row_of l)
  pub first_comma : Lacks b',' l.first

-- The first addresses of the peers, in order.
abbrev pub put_firsts : PeerMap → List PeerLine → PeerMap
put_firsts m [] = m
put_firsts m (l ∷ ls) = put_firsts (put l.key (parse_prefix l.first) m) ls

first_part-with_commas :
    (first : String) (others : List String)
    → Lacks b',' first
    → first_part (with_commas first others) ≡ first
first_part-with_commas first [] h = ap first_of (split_none b',' first h)
first_part-with_commas first (next ∷ others) h =
    ap first_of (split_at "," first (with_commas next others) h)

put_rows-put_firsts :
    (m : PeerMap) (ls : List PeerLine)
    → All IsPeerLine ls
    → put_rows m (map row_of ls) ≡ put_firsts m ls
put_rows-put_firsts m [] h = refl
put_rows-put_firsts m (l ∷ ls) h =
    ap (λ p. put_rows (put l.key (parse_prefix p) m) (map row_of ls))
      (first_part-with_commas l.first l.others h.0.first_comma)
    ∙ put_rows-put_firsts (put l.key (parse_prefix l.first) m) ls h.1

-- What `wg show … dump` prints for an interface's peers is read back as those peers: each key with
-- the first of its addresses, and nothing else. The line about the interface is passed over.
pub parse_dump-print_peers :
    (header : String) (ls : List PeerLine)
    → IsHeader header
    → All IsPeerLine ls
    → parse_dump (print_dump header (map row_of ls)) ≡ put_firsts [] ls
parse_dump-print_peers header ls h k =
    parse_dump-print_dump header (map row_of ls) h (rows_of ls k) ∙ put_rows-put_firsts [] ls k
  where
    rows_of : (ls : List PeerLine) → All IsPeerLine ls → All IsRow (map row_of ls)
    rows_of [] k = tt
    rows_of (l ∷ ls) k = (k.0.row, rows_of ls k.1)
