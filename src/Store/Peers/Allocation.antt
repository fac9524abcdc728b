-- ===== src/Store/Peers/Allocation.antt =====
-- What `allocateIP` of server/internal/store/peers.go returns.
use native.Mathlib.Decide.{dec_lt}
use proxify_vpn.Base.{
  Bool, Bool-cases, List, Option-cases, String, [], arith, false, inl, inr, leb, ltb, none, some,
  suc, true, zero, ℕ, ◌&&◌, ◌+◌, ◌-◌, ◌<◌, ◌=?◌, ◌^◌, ◌∷◌, ◌≡◌, ◌≤◌,
}
use proxify_vpn.Base.Rows.{affected, exists_row}
use proxify_vpn.Errors.{ok}
use proxify_vpn.Model.{Prefix, is_held}
use proxify_vpn.Store.Db.{PeerRow}
use proxify_vpn.Store.Peers.{allocate_ip, first_free, holds_ip, max_offset}

-- The rows of a server that hold one of `n` addresses from `lo` on.
abbrev pub held_in : String → ℕ → ℕ → PeerRow → Bool
held_in server_id lo n r =
    (r.server_id =? server_id && is_held r.state)
    && (leb lo r.tunnel_ip && ltb r.tunnel_ip (lo + n))

module _ (server_id : String) (rows : List PeerRow) where
  first_free-some :
      (n lo a : ℕ)
      → first_free n lo server_id rows ≡ some a
      → (lo ≤ a) × (a < lo + n) × (exists_row (holds_ip server_id a) rows ≡ false)
  unfolding first_free
  first_free-some zero lo a h = cc
  first_free-some (suc n) lo a h = elim (Bool-cases (exists_row (holds_ip server_id lo) rows)) [
    | inl taken ↦
        let (below, within, free) = first_free-some n (suc lo) a (rw (taken, first_free) at h) in
        (omega arith, omega arith, free)
    | inr free ↦
        let e : lo ≡ a = some_inj (rw (free, first_free) at h) in
        (omega arith, omega arith, rw (← e) free)
  ]
    where
      some_inj : {x y : ℕ} → some x ≡ some y → x ≡ y
      some_inj e = cc

  first_free-none :
      (n lo b : ℕ)
      → first_free n lo server_id rows ≡ none
      → lo ≤ b
      → b < lo + n
      → exists_row (holds_ip server_id b) rows ≡ true
  unfolding first_free
  first_free-none zero lo b h p q = absurd (omega arith)
  first_free-none (suc n) lo b h p q = elim (Bool-cases (exists_row (holds_ip server_id lo) rows)) [
    | inl taken ↦ elim (dec_lt lo b) [
      | yes above ↦ first_free-none n (suc lo) b (rw (taken, first_free) at h) above (omega arith)
      | no same ↦ let e : b ≡ lo = omega arith in rw e taken
    ]
    | inr free ↦ absurd (never (rw (free, first_free) at h))
  ]
    where
      never : some lo ≡ none → ⊥
      never e = cc

abbrev rows_at : String → ℕ → List PeerRow → ℕ
rows_at server_id ip rows = affected (holds_ip server_id ip) rows

rows_at-pos :
    (server_id : String) (ip : ℕ) (rows : List PeerRow)
    → exists_row (holds_ip server_id ip) rows ≡ true
    → 1 ≤ rows_at server_id ip rows
rows_at-pos s ip [] h = cc
rows_at-pos s ip (r ∷ rows) h = ground (arith, rows_at-pos s ip rows)

held_in-suc :
    (server_id : String) (lo n : ℕ) (rows : List PeerRow)
    → affected (held_in server_id lo (suc n)) rows
      ≡ rows_at server_id lo rows + affected (held_in server_id (suc lo) n) rows
held_in-suc s lo n [] = omega arith
held_in-suc s lo n (r ∷ rows) = ground (arith, held_in-suc s lo n rows)

-- If every address of a range is held, at least as many rows hold one.
all_held-count :
    (server_id : String) (rows : List PeerRow) (n lo : ℕ)
    → ((b : ℕ) → lo ≤ b → b < lo + n → exists_row (holds_ip server_id b) rows ≡ true)
    → n ≤ affected (held_in server_id lo n) rows
all_held-count s rows zero lo h = omega arith
all_held-count s rows (suc n) lo h = omega (
  arith,
  held_in-suc s lo n rows,
  rows_at-pos s lo rows (h lo (omega arith) (omega arith)),
  all_held-count s rows n (suc lo) (λ b p q. h b (omega arith) (omega arith)),
)

pub allocate_ip-reached :
    (server_id : String) (p : Prefix) (rows : List PeerRow) (a : ℕ)
    → allocate_ip server_id p rows ≡ ok a
    → (1 ≤ max_offset p) × (first_free (max_offset p - 1) (p.addr + 2) server_id rows ≡ some a)
unfolding allocate_ip
allocate_ip-reached s p rows a h = (ground arith, ground arith)

-- An allocated address is one of an IPv4 subnet's: not its first two, which are the network's and
-- the server's own, nor its last, which is the broadcast address; and no held row of the server has
-- it.
pub allocate_ip-IsFree :
    (server_id : String) (p : Prefix) (rows : List PeerRow) (a : ℕ)
    → allocate_ip server_id p rows ≡ ok a
    → (p.is4 ≡ true)
      × (p.addr + 2 ≤ a)
      × (a + 2 ≤ p.addr + 2 ^ (32 - p.bits))
      × (exists_row (holds_ip server_id a) rows ≡ false)
unfolding allocate_ip
allocate_ip-IsFree s p rows a h =
    let (enough, found) = allocate_ip-reached s p rows a h in
    let (above, within, free) = first_free-some s rows _ _ a found in
    (ground arith, above, omega arith, free)

-- A subnet is reported exhausted only if at least as many rows of the server are held as it has
-- addresses to hand out: a free address is never missed.
pub allocate_ip_complete :
    (server_id : String) (p : Prefix) (rows : List PeerRow)
    → p.is4 ≡ true
    → affected (held_in server_id (p.addr + 2) (max_offset p - 1)) rows < max_offset p - 1
    → (a : ℕ) × (allocate_ip server_id p rows ≡ ok a)
unfolding allocate_ip
allocate_ip_complete s p rows is4 few =
    elim (Option-cases (first_free (max_offset p - 1) (p.addr + 2) s rows)) [
      | inl full ↦ absurd (
          omega (
            arith,
            all_held-count s rows (max_offset p - 1) (p.addr + 2)
                (λ b lo hi. first_free-none s rows _ _ b full lo hi),
          ))
      | inr (a, found) ↦ (a, succeed a found)
    ]
  where
    succeed :
        (a : ℕ)
        → first_free (max_offset p - 1) (p.addr + 2) s rows ≡ some a
        → allocate_ip s p rows ≡ ok a
    succeed a found = ground arith
