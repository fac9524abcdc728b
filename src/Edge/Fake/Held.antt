-- ===== src/Edge/Fake/Held.antt =====
-- Which keys the boxes of server/internal/edge/fake.go hold after a call.
use proxify_vpn.Base.{
  =?-refl, Bool, Bool-cases, List, String, [], ap, arith, false, inl, inr, none, not, refl, some, ℕ,
  ◌&&◌, ◌=?◌, ◌||◌, ◌∙◌, ◌∷◌, ◌≡◌,
}
use proxify_vpn.Base.Rows.{exists_row}
use proxify_vpn.Base.Text.{◌<>◌}
use proxify_vpn.Edge.{Peer}
use proxify_vpn.Edge.Fake.{
  Fake, apply_peer, box_of, count_sync, failure, has_peer, keyed_by, logged, lookup, peers_of, put,
  remove, remove_peer, set_box, sync_peers, unless, with_peer,
}
use proxify_vpn.Errors.{Error, err, ok}
use proxify_vpn.Model.{Server}

module _ {ℓ} {A : Type ℓ} where
  pub lookup-put : (k : String) (a : A) (m : List (String × A)) → lookup k (put k a m) ≡ some a
  lookup-put k a m = ground (arith, =?-refl k)

  lookup-remove-other :
      (j k : String) (m : List (String × A)) → (k =? j) ≡ false → lookup j (remove k m) ≡ lookup j m
  lookup-remove-other j k [] h = refl
  lookup-remove-other j k (e ∷ m) h = ground (arith, lookup-remove-other j k m)

  pub lookup-put-other :
      (j k : String) (a : A) (m : List (String × A))
      → (k =? j) ≡ false
      → lookup j (put k a m) ≡ lookup j m
  lookup-put-other j k a m h = ground (arith, lookup-remove-other j k m h)

  pub held-remove :
      (key k : String) (m : List (String × A))
      → exists_row (keyed_by key) (remove k m) ≡ (not (k =? key) && exists_row (keyed_by key) m)
  held-remove key k [] = ground arith
  held-remove key k (e ∷ m) = ground (arith, held-remove key k m)

  pub held-put :
      (key k : String) (a : A) (m : List (String × A))
      → exists_row (keyed_by key) (put k a m) ≡ (k =? key || exists_row (keyed_by key) m)
  held-put key k a m = ground (arith, held-remove key k m)

pub held-box_of :
    (key : String) (box : List (String × ℕ)) (peers : List Peer)
    → exists_row (keyed_by key) (box_of box peers)
      ≡ (exists_row (λ p. p.public_key =? key) peers || exists_row (keyed_by key) box)
held-box_of key box [] = refl
held-box_of key box (p ∷ peers) = ground (
  arith,
  held-box_of key (put p.public_key p.revision box) peers,
  held-put key p.public_key p.revision box,
)

pub peers_of-set_box :
    (code : String) (box : List (String × ℕ)) (f : Fake) → peers_of code (set_box code box f) ≡ box
peers_of-set_box code box f = rw (lookup-put code box f.peers) refl

-- The key goes with the call of `ApplyPeer` for this peer.
abbrev pub is_replaced_by : Peer → String → Bool
is_replaced_by p key = not (p.replaces =? "") && p.replaces =? key

held-with_peer :
    (key : String) (p : Peer) (box : List (String × ℕ))
    → exists_row (keyed_by key) (with_peer p box)
      ≡ (p.public_key =? key || (not (is_replaced_by p key) && exists_row (keyed_by key) box))
held-with_peer key p box = elim (Bool-cases (p.replaces =? "")) [
  | inl first ↦ ground (arith, held-put key p.public_key p.revision box)
  | inr rotation ↦ ground (
    arith,
    held-put key p.public_key p.revision (remove p.replaces box),
    held-remove key p.replaces box,
  )
]

failure-logged :
    (call : String) (f : Fake) (srv : Server) → failure (logged call f) srv ≡ failure f srv
unfolding failure
failure-logged call f srv = refl

pub apply_peer-up :
    (srv : Server) (p : Peer) (f : Fake)
    → failure f srv ≡ none
    → apply_peer srv p f ≡ (
      ok tt,
      set_box srv.code
          (with_peer p (peers_of srv.code f))
          (logged ("apply:" <> srv.code <> ":" <> p.public_key) f),
    )
unfolding apply_peer
apply_peer-up srv p f up =
    ap
      (λ o.
        unless o (logged ("apply:" <> srv.code <> ":" <> p.public_key) f)
          (λ g. (ok tt, set_box srv.code (with_peer p (peers_of srv.code g)) g)))
      (failure-logged ("apply:" <> srv.code <> ":" <> p.public_key) f srv ∙ up)

pub remove_peer-up :
    (srv : Server) (k : String) (f : Fake)
    → failure f srv ≡ none
    → remove_peer srv k f ≡ (
      ok tt,
      set_box srv.code
          (remove k (peers_of srv.code f))
          (logged ("remove:" <> srv.code <> ":" <> k) f),
    )
unfolding remove_peer
remove_peer-up srv k f up = rw (failure-logged ("remove:" <> srv.code <> ":" <> k) f srv, up) refl

sync_peers-up :
    (srv : Server) (peers : List Peer) (f : Fake)
    → failure f srv ≡ none
    → sync_peers srv peers f ≡ (
      ok tt,
      count_sync srv.code (set_box srv.code (box_of [] peers) (logged ("sync:" <> srv.code) f)),
    )
unfolding sync_peers
sync_peers-up srv peers f up = rw (failure-logged ("sync:" <> srv.code) f srv, up) refl

pub apply_peer-held :
    (srv : Server) (p : Peer) (f : Fake) (key : String)
    → failure f srv ≡ none
    → ((apply_peer srv p f).0 ≡ ok tt)
      × (has_peer srv.code key (apply_peer srv p f).1
          ≡ (p.public_key =? key || (not (is_replaced_by p key) && has_peer srv.code key f)))
unfolding has_peer
apply_peer-held srv p f key up =
    rw (apply_peer-up srv p f up, lookup-put srv.code (with_peer p (peers_of srv.code f)) f.peers)
      (refl, held-with_peer key p (peers_of srv.code f))

pub remove_peer-held :
    (srv : Server) (k : String) (f : Fake) (key : String)
    → failure f srv ≡ none
    → ((remove_peer srv k f).0 ≡ ok tt)
      × (has_peer srv.code key (remove_peer srv k f).1
          ≡ (not (k =? key) && has_peer srv.code key f))
unfolding has_peer
remove_peer-held srv k f key up =
    rw (remove_peer-up srv k f up, lookup-put srv.code (remove k (peers_of srv.code f)) f.peers)
      (refl, held-remove key k (peers_of srv.code f))

pub sync_peers-held :
    (srv : Server) (peers : List Peer) (f : Fake) (key : String)
    → failure f srv ≡ none
    → ((sync_peers srv peers f).0 ≡ ok tt)
      × (has_peer srv.code key (sync_peers srv peers f).1
          ≡ exists_row (λ p. p.public_key =? key) peers)
unfolding has_peer
sync_peers-held srv peers f key up =
    rw (sync_peers-up srv peers f up, lookup-put srv.code (box_of [] peers) f.peers)
      (refl, ground (arith, held-box_of key [] peers))

-- A failing box answers with its error, and nothing on it changes.
pub apply_peer-down :
    (srv : Server) (p : Peer) (f : Fake) (e : Error)
    → failure f srv ≡ some e
    → ((apply_peer srv p f).0 ≡ err e) × ((apply_peer srv p f).1.peers ≡ f.peers)
unfolding apply_peer
apply_peer-down srv p f e failing = rw stopped (refl, refl)
  where
    stopped : failure (logged ("apply:" <> srv.code <> ":" <> p.public_key) f) srv ≡ some e
    stopped = failure-logged ("apply:" <> srv.code <> ":" <> p.public_key) f srv ∙ failing

pub remove_peer-down :
    (srv : Server) (k : String) (f : Fake) (e : Error)
    → failure f srv ≡ some e
    → ((remove_peer srv k f).0 ≡ err e) × ((remove_peer srv k f).1.peers ≡ f.peers)
unfolding remove_peer
remove_peer-down srv k f e failing = rw stopped (refl, refl)
  where
    stopped : failure (logged ("remove:" <> srv.code <> ":" <> k) f) srv ≡ some e
    stopped = failure-logged ("remove:" <> srv.code <> ":" <> k) f srv ∙ failing
