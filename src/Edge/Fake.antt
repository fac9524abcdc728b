-- ===== src/Edge/Fake.antt =====
-- server/internal/edge/fake.go: the in-memory boxes. A Go map is an association list in which a key
-- stands once; a missing server reads as an empty box.
pub mod Held
use mathlib.Core.Option
use proxify_vpn.Api.Respond.{call}
use proxify_vpn.Base.{
  Bool, List, Option, String, [], if◌then◌else◌, length, none, not, some, true, ℕ, ◌++◌, ◌+◌, ◌=?◌,
  ◌∷◌,
}
use proxify_vpn.Base.Rows.{exists_row, find_row, rows_where}
use proxify_vpn.Base.Text.{◌<>◌}
use proxify_vpn.Edge.{Health, Peer}
use proxify_vpn.Errors.{Error, Result, err, noted, ok, text}
use proxify_vpn.Model.{Server}
use proxify_vpn.Store.Db.{coalesce}

pub record Fake : Type 0 where
  pub peers : List (String × List (String × ℕ))
  pub fail_with : Option Error
  pub fail_for : List (String × Error)
  pub boot_ids : List (String × String)
  pub calls : List String
  pub synced_at : List (String × ℕ)

module _ {ℓ} {A : Type ℓ} where
  abbrev pub keyed_by : String → String × A → Bool
  keyed_by k e = e.0 =? k

  -- `m[k]`
  abbrev pub lookup : String → List (String × A) → Option A
  lookup k m = Option.map (λ e. e.1) (find_row (keyed_by k) m)

  -- `delete(m, k)`
  abbrev pub remove : String → List (String × A) → List (String × A)
  remove k m = rows_where (λ e. not (keyed_by k e)) m

  -- `m[k] = a`
  abbrev pub put : String → A → List (String × A) → List (String × A)
  put k a m = (k, a) ∷ remove k m

-- `NewFake`
abbrev pub new_fake : Fake
new_fake = record {
  peers = [];
  fail_with = none;
  fail_for = [];
  boot_ids = [];
  calls = [];
  synced_at = [];
}

abbrev pub peers_of : String → Fake → List (String × ℕ)
peers_of code f = coalesce (lookup code f.peers) []

abbrev pub failure_for : Server → Option Error → Option Error
failure_for srv none = none
failure_for srv (some e) = some (noted e (text ("fake failure for " <> srv.code)))

-- `fail`: the error of a mutating call, if it has one.
unfoldable pub failure : Fake → Server → Option Error
failure f srv = elim f.fail_with [
  | some e ↦ some (noted e (text "fake failure"))
  | none ↦ failure_for srv (lookup srv.code f.fail_for)
]

abbrev pub logged : String → Fake → Fake
logged call f = record f { calls = f.calls ++ (call ∷ []) }

-- The box after `ApplyPeer`: the replaced key goes, the key is set.
abbrev pub with_peer : Peer → List (String × ℕ) → List (String × ℕ)
with_peer p box =
    put p.public_key p.revision (if p.replaces =? "" then box else remove p.replaces box)

-- `set[p.PublicKey] = p.Revision`, for each peer in order.
abbrev pub box_of : List (String × ℕ) → List Peer → List (String × ℕ)
box_of box [] = box
box_of box (p ∷ peers) = box_of (put p.public_key p.revision box) peers

abbrev pub set_box : String → List (String × ℕ) → Fake → Fake
set_box code box f = record f { peers = put code box f.peers }

-- Go on unless the box fails.
abbrev pub unless :
    Option Error → Fake → (Fake → Result (Unit {0}) × Fake) → Result (Unit {0}) × Fake
unless (some e) f k = (err e, f)
unless none f k = k f

unfoldable pub apply_peer : Server → Peer → Fake → Result (Unit {0}) × Fake
apply_peer srv p f =
    unless (failure (logged ("apply:" <> srv.code <> ":" <> p.public_key) f) srv)
      (logged ("apply:" <> srv.code <> ":" <> p.public_key) f)
      (λ g. (ok tt, set_box srv.code (with_peer p (peers_of srv.code g)) g))

unfoldable pub remove_peer : Server → String → Fake → Result (Unit {0}) × Fake
remove_peer srv key f =
    unless (failure (logged ("remove:" <> srv.code <> ":" <> key) f) srv)
      (logged ("remove:" <> srv.code <> ":" <> key) f)
      (λ g. (ok tt, set_box srv.code (remove key (peers_of srv.code g)) g))

abbrev pub count_sync : String → Fake → Fake
count_sync code f = record f {
  synced_at = put code (coalesce (lookup code f.synced_at) 0 + 1) f.synced_at;
}

unfoldable pub sync_peers : Server → List Peer → Fake → Result (Unit {0}) × Fake
sync_peers srv peers f =
    unless (failure (logged ("sync:" <> srv.code) f) srv) (logged ("sync:" <> srv.code) f)
      (λ g. (ok tt, count_sync srv.code (set_box srv.code (box_of [] peers) g)))

abbrev pub boot_id : String → Fake → String
boot_id code f =
    let id = coalesce (lookup code f.boot_ids) "" in if id =? "" then "fake-boot" else id

-- The agent's report.
abbrev pub report : Server → Fake → Health
report srv f = record {
  healthy = true;
  boot_id = boot_id srv.code f;
  peer_count = length (peers_of srv.code f);
  wireguard = true;
}

unfoldable pub health : Server → Fake → Result Health × Fake
health srv f = elim (failure f srv) [ some e ↦ (err e, f) | none ↦ (ok (report srv f), f) ]

-- `HasPeer`
unfoldable pub has_peer : String → String → Fake → Bool
has_peer code key f = exists_row (keyed_by key) (peers_of code f)

-- `PeerCount`
unfoldable pub peer_count : String → Fake → ℕ
peer_count code f = length (peers_of code f)

-- `Reset`: the boot ids and the counts of syncs stay.
unfoldable pub reset : Fake → Fake
reset f = record f { peers = []; calls = []; fail_with = none; fail_for = [] }
