-- ===== src/Agent/Listing.antt =====
-- What `ListPeers` of edge/internal/wg/wg.go reads of the output of `wg show … dump`.
use proxify_vpn.Base.{List, Option, String, [], if◌then◌else◌, none, some, ℕ, ◌=?◌, ◌∷◌}
use proxify_vpn.Base.Netip.{parse_prefix}
use proxify_vpn.Base.Split.{split}
use proxify_vpn.Base.Text.{trim_space}
use proxify_vpn.Edge.Fake.{put}

-- The peers by their keys: a Go map as an association list.
abbrev pub PeerMap : Type 0
PeerMap = List (String × Option ℕ)

-- `strings.Split(allowed, ",")[0]`
abbrev pub first_of : List String → String
first_of [] = ""
first_of (p ∷ ps) = p

abbrev pub first_part : String → String
first_part allowed = first_of (split b',' allowed)

-- What a line of the dump says of a peer: the key and the first of its addresses.
abbrev pub fields_peer : List String → Option (String × Option ℕ)
fields_peer (key ∷ psk ∷ endpoint ∷ allowed ∷ rest) = some (key, parse_prefix (first_part allowed))
fields_peer _ = none

unfoldable pub line_peer : String → Option (String × Option ℕ)
unfolding split trim_space parse_prefix
line_peer line = if trim_space line =? "" then none else fields_peer (split b'\t' line)

abbrev pub put_line : Option (String × Option ℕ) → PeerMap → PeerMap
put_line none m = m
put_line (some (key, ip)) m = put key ip m

abbrev pub put_lines : PeerMap → List String → PeerMap
put_lines m [] = m
put_lines m (line ∷ lines) = put_lines (put_line (line_peer line) m) lines

-- The first line is about the interface.
abbrev pub after_first : List String → PeerMap
after_first [] = []
after_first (line ∷ lines) = put_lines [] lines

unfoldable pub parse_dump : String → PeerMap
unfolding split trim_space line_peer
parse_dump out = after_first (split b'\n' (trim_space out))
