-- ===== src/Provision/Selector/Candidates.antt =====
-- What `candidates` of server/internal/provision/selector.go returns.
use proxify_vpn.Base.{List, arith, false, inl, inr, true, ◌=?◌, ◌∷◌, ◌≡◌}
use proxify_vpn.Base.Rows.{rows_where}
use proxify_vpn.Errors.{Result-cases, ok}
use proxify_vpn.Model.{Server, is_in_service}
use proxify_vpn.Provision.Selector.{Request, candidates, is_other, sort_servers, wanted_code}
use proxify_vpn.Provision.Storer.{Storer}

module _ {S : Type 0} (st : Storer S) (req : Request) where
  -- A request that names a server gets that server first or nothing: it is in service, and what
  -- follows are the other servers in use, as the failover.
  pub candidates-requested :
      (s s' : S) (list : List Server)
      → (wanted_code st req =? "") ≡ false
      → (wanted_code st req =? "auto") ≡ false
      → candidates st req s ≡ (ok list, s')
      → (chosen : Server) × (in_use : List Server) × (st.server_by_code
            (wanted_code st req)
            (st.servers true s).1
          ≡ (ok chosen, s'))
        × (is_in_service chosen.status ≡ true)
        × ((st.servers true s).0 ≡ ok in_use)
        × (list ≡ chosen ∷ sort_servers (rows_where (is_other st chosen) in_use) req.client_country)
  unfolding candidates
  candidates-requested s s' list named other h = elim (Result-cases (st.servers true s).0) [
    | inl (in_use, e) ↦
        elim (Result-cases (st.server_by_code (wanted_code st req) (st.servers true s).1).0) [
          | inl (chosen, f) ↦ (chosen, in_use, ground arith, ground arith, e, ground arith)
          | inr (x, f) ↦ absurd (ground arith)
        ]
    | inr (x, e) ↦ absurd (ground arith)
  ]
