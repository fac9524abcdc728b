-- ===== src/Agent/Wg.antt =====
-- edge/internal/wg/wg.go: the WireGuard interface, through the tools `wg` and `wg-quick`. A call of a
-- tool takes the interface's state, which is an argument, and fails or gives what it printed.
pub mod Dump
pub mod Addresses
pub mod Tool
pub mod Removed
pub mod Added
pub mod Synced
pub mod Replaced
use proxify_vpn.Agent.Listing.{PeerMap, parse_dump}
use proxify_vpn.Base.{
  Bool, List, Option, String, [], false, if◌then◌else◌, length, none, not, some, true, ℕ, ◌&&◌, ◌/◌,
  ◌==◌, ◌=?◌, ◌^◌, ◌||◌, ◌∷◌,
}
use proxify_vpn.Base.Effects.{Call, fail, prefixed, succeed, ◌>>=◌, ◌>>◌}
use proxify_vpn.Base.Netip.{parse_ip4}
use proxify_vpn.Base.Text.{byte_length, ends_with, show_ip, ◌<>◌}
use proxify_vpn.Edge.Fake.{lookup, put}
use proxify_vpn.Errors.{Result, err, ok, sentinel, wg_invalid_ip, wg_invalid_key, wrapped}
use proxify_vpn.Keys.{Base64, raw_length}

-- `Client`. A Go map is an association list, and `order` is the order in which a `range` visits it.
pub record Client (S : Type 0) : Type 0 where
  pub iface : String
  pub persist : Bool
  pub runner : String → List String → Call S String
  pub keys : Base64
  pub order : List (String × Option ℕ) → List (String × Option ℕ)

-- `New`
unfoldable pub new_wg :
    {S : Type 0}
    → String
    → (String → List String → Call S String)
    → Base64
    → (List (String × Option ℕ) → List (String × Option ℕ))
    → Client S
new_wg iface runner keys order = record {
  iface = iface;
  persist = true;
  runner = runner;
  keys = keys;
  order = order;
}

-- `Peer`. An address that is invalid, or not IPv4, is none.
pub record Peer : Type 0 where
  pub public_key : String
  pub tunnel_ip : Option ℕ

abbrev pub key_of : Base64 → Option String → Result String
key_of b none = err (sentinel wg_invalid_key)
key_of b (some raw) =
    if not (raw_length raw == 32) then err (sentinel wg_invalid_key) else ok (b.encode raw)

-- `ValidateKey`
unfoldable pub validate_key : Base64 → String → Result String
unfolding byte_length raw_length
validate_key b key =
    if not (byte_length key == 44) then err (sentinel wg_invalid_key) else key_of b (b.decode key)

abbrev pub is_multicast : ℕ → Bool
is_multicast a = a / 2 ^ 28 == 14

abbrev pub host_address : Option ℕ → Result ℕ
host_address none = err (sentinel wg_invalid_ip)
host_address (some a) = if a == 0 || is_multicast a then err (sentinel wg_invalid_ip) else ok a

-- `ValidateIP`
unfoldable pub validate_ip : String → Result ℕ
unfolding parse_ip4
validate_ip addr = host_address (parse_ip4 addr)

abbrev pub is_some {ℓ} : {A : Type ℓ} → Option A → Bool
is_some none = false
is_some (some a) = true

-- `existing.TunnelIP == p.TunnelIP`, of the peer of the map if there is one.
abbrev pub same_ip : Option (Option ℕ) → ℕ → Bool
same_ip (some (some a)) b = a == b
same_ip (some none) b = false
same_ip none b = false

-- `redactArgs`
abbrev pub redacted : String → String
redacted a = if byte_length a == 44 && ends_with b'=' a then "<key>" else a

unfoldable pub redact_args : List String → String
unfolding byte_length ends_with
redact_args [] = ""
redact_args (a ∷ []) = redacted a
redact_args (a ∷ b ∷ args) = redacted a <> " " <> redact_args (b ∷ args)

module _ {S : Type 0} (c : Client S) where
  abbrev pub remove_args : String → List String
  remove_args key = "set" ∷ c.iface ∷ "peer" ∷ key ∷ "remove" ∷ []

  abbrev pub set_args : String → ℕ → List String
  set_args key ip = "set" ∷ c.iface ∷ "peer" ∷ key ∷ "allowed-ips" ∷ (show_ip ip <> "/32") ∷ []

  -- `removePeer`
  unfoldable pub remove_key : String → Call S (Unit {0})
  remove_key key = c.runner "wg" (remove_args key) >>= λ _. succeed tt

  unfoldable pub set_key : String → ℕ → Call S (Unit {0})
  set_key key ip = c.runner "wg" (set_args key ip) >>= λ _. succeed tt

  -- `save`
  unfoldable pub save : Call S (Unit {0})
  save =
      if not c.persist
      then succeed tt
      else prefixed "persist config" (c.runner "wg-quick" ("save" ∷ c.iface ∷ [])) >>= λ _.
          succeed tt

  abbrev pub remove_replaced : String → Result String → Call S (Unit {0})
  remove_replaced key (err e) = fail (wrapped "replaces" e)
  remove_replaced key (ok old) = remove_key old

  -- The removal of the key that is replaced comes first.
  abbrev pub drop_replaced : String → String → Call S (Unit {0})
  drop_replaced key replaces =
      if replaces =? "" || replaces =? key
      then succeed tt
      else remove_replaced key (validate_key c.keys replaces)

  abbrev pub set_valid : String → String → Option ℕ → Call S (Unit {0})
  set_valid key replaces none = fail (sentinel wg_invalid_ip)
  set_valid key replaces (some ip) = do drop_replaced key replaces; set_key key ip; save

  abbrev pub on_key : {A : Type 0} → Result String → (String → Call S A) → Call S A
  on_key (err e) k = fail e
  on_key (ok key) k = k key

  -- `SetPeer`
  unfoldable pub set_peer : Peer → String → Call S (Unit {0})
  unfolding validate_key remove_key set_key save
  set_peer peer replaces =
      on_key (validate_key c.keys peer.public_key) λ key. set_valid key replaces peer.tunnel_ip

  -- `RemovePeer`
  unfoldable pub remove_peer : String → Call S (Unit {0})
  unfolding validate_key remove_key save
  remove_peer public_key =
      on_key (validate_key c.keys public_key) λ key. remove_key key >>= λ _. save

  -- `ListPeers`
  unfoldable pub list_peers : Call S PeerMap
  unfolding parse_dump
  list_peers = c.runner "wg" ("show" ∷ c.iface ∷ "dump" ∷ []) >>= λ out. succeed (parse_dump out)

  -- The map of the wanted peers, under their checked keys.
  abbrev pub want_one : Peer → PeerMap → Result String → Option ℕ → Result PeerMap
  want_one p want (err e) ip = err e
  want_one p want (ok key) none = err (sentinel wg_invalid_ip)
  want_one p want (ok key) (some ip) = ok (put key (some ip) want)

  abbrev pub on_want : Result PeerMap → (PeerMap → Result PeerMap) → Result PeerMap
  on_want (err e) k = err e
  on_want (ok more) k = k more

  unfoldable pub wanted : PeerMap → List Peer → Result PeerMap
  unfolding validate_key
  wanted want [] = ok want
  wanted want (p ∷ peers) =
      on_want (want_one p want (validate_key c.keys p.public_key) p.tunnel_ip)
        λ more. wanted more peers

  unfoldable pub remove_unwanted : PeerMap → PeerMap → Call S (Unit {0})
  unfolding remove_key
  remove_unwanted want [] = succeed tt
  remove_unwanted want ((key, ip) ∷ current) =
      (if is_some (lookup key want) then succeed tt else remove_key key) >>= λ _.
      remove_unwanted want current

  abbrev pub set_differing : PeerMap → String → Option ℕ → Call S (Unit {0})
  set_differing current key none = succeed tt
  set_differing current key (some ip) =
      if same_ip (lookup key current) ip then succeed tt else set_key key ip

  unfoldable pub set_wanted : PeerMap → PeerMap → Call S (Unit {0})
  unfolding set_key
  set_wanted current [] = succeed tt
  set_wanted current ((key, ip) ∷ want) =
      set_differing current key ip >>= λ _. set_wanted current want

  abbrev pub sync_to : PeerMap → Result PeerMap → Call S (Unit {0})
  sync_to current (err e) = fail e
  sync_to current (ok want) = do
    remove_unwanted want (c.order current)
    set_wanted current (c.order want)
    save

  -- `Sync`: the peers that are not wanted go first.
  unfoldable pub sync : List Peer → Call S (Unit {0})
  unfolding list_peers wanted remove_unwanted set_wanted save
  sync peers = list_peers >>= λ current. sync_to current (wanted [] peers)

  abbrev pub is_done : {A : Type 0} → Result A → Bool
  is_done (ok a) = true
  is_done (err e) = false

  -- `Up`
  unfoldable pub is_up : S → Bool × S
  is_up s = let (r, s') = c.runner "wg" ("show" ∷ c.iface ∷ []) s in (is_done r, s')

  -- `PeerCount`: none is the source's -1.
  abbrev pub count_of : Result PeerMap → Option ℕ
  count_of (ok peers) = some (length peers)
  count_of (err e) = none

  unfoldable pub peer_count : S → Option ℕ × S
  unfolding list_peers
  peer_count s = let (r, s') = list_peers s in (count_of r, s')
