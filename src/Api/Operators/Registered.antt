-- ===== src/Api/Operators/Registered.antt =====
-- A box that was registered.
use proxify_vpn.Api.Operators.{
  UpsertServerRequest, handle_upsert_server, is_incomplete, parse_status, server_of,
}
use proxify_vpn.Api.Respond.{Response, going, not_going}
use proxify_vpn.Api.Site.{ApiServer, Site}
use proxify_vpn.Base.{
  Bool, Bool-cases, List, Option, Option-cases, String, String_discrete, [], ap, arith, false, inl,
  inr, none, refl, some, subst, ◌&&◌, ◌∷◌, ◌≡◌,
}
use proxify_vpn.Base.Rows.{exists_row, find_row, update_where}
use proxify_vpn.Errors.{Result-cases}
use proxify_vpn.Keys.{validate}
use proxify_vpn.Model.{Prefix, Server, draining, is_in_service}
use proxify_vpn.Store.Db.{PeerRow}
use proxify_vpn.Store.Payments.{or_default}
use proxify_vpn.Store.Servers.{coded, registered, upsert_server}
use proxify_vpn.World.{fresh_id}

-- A server of the code that users may be given.
abbrev pub in_use : String → Server → Bool
in_use code v = coded code v && is_in_service v.status

no_code :
    (code : String) (rows : List Server)
    → find_row (coded code) rows ≡ none
    → exists_row (in_use code) rows ≡ false
no_code code [] h = refl
no_code code (v ∷ rows) h = ground (arith, no_code code rows)

overwritten :
    (p : Server) (rows : List Server)
    → is_in_service p.status ≡ false
    → exists_row (in_use p.code) (update_where (coded p.code) (registered p) rows) ≡ false
overwritten p [] h = refl
overwritten p (v ∷ rows) h = ground (arith, overwritten p rows h)

upsert-unused :
    (given_id : String) (p : Server) (rows : List Server) (peers : List PeerRow)
    → is_in_service p.status ≡ false
    → exists_row (in_use p.code) (upsert_server given_id p rows peers).1 ≡ false
unfolding upsert_server
upsert-unused given_id p rows peers h = elim (Option-cases (find_row (coded p.code) rows)) [
  | inl new ↦ ground (arith, no_code p.code rows)
  | inr (old, found) ↦ ground (arith, overwritten p rows h)
]

draining-unsaid :
    (status : String) → status ≡ "" → parse_status (or_default status "draining") ≡ some draining
unfolding parse_status String_discrete
draining-unsaid status unsaid = rw unsaid refl

-- A box that an operator registers without a status takes no users: after the request no box of its
-- code is in service, whatever the table held before.
pub handle_upsert_server-unused :
    (api : ApiServer) (cidr : String → Option Prefix) (req : UpsertServerRequest) (r : Response)
    (s s' : Site)
    → req.status ≡ ""
    → handle_upsert_server api cidr (some req) s ≡ (going r, s')
    → exists_row (in_use req.code) s'.world.db.servers ≡ false
unfolding handle_upsert_server
handle_upsert_server-unused api cidr req r s s' unsaid h =
    let status : parse_status (or_default req.status "draining") ≡ some draining =
      draining-unsaid req.status unsaid in
    elim (Result-cases (validate api.keys req.public_key)) [
      | inr (e, bad) ↦ absurd (not_going _ h (rw bad refl))
      | inl (key, good) ↦ elim (Bool-cases (is_incomplete req)) [
        | inl lacking ↦ absurd (not_going _ h (rw (good, lacking) refl))
        | inr full ↦ elim (Option-cases (cidr req.tunnel_subnet)) [
          | inl unreadable ↦ absurd (not_going _ h (rw (good, full, unreadable) refl))
          | inr (subnet, read) ↦
              let p : Server = server_of req key subnet draining in
              let stored : exists_row (in_use req.code)
                    (upsert_server (fresh_id s.world) p s.world.db.servers s.world.db.peers).1
                  ≡ false =
                upsert-unused (fresh_id s.world) p s.world.db.servers s.world.db.peers refl in
              elim (Result-cases
                (upsert_server (fresh_id s.world) p s.world.db.servers s.world.db.peers).0) [
                  | inr (e, unsaved) ↦
                      absurd (not_going _ h (rw (good, full, read, status, unsaved) refl))
                  | inl (srv, saved) ↦
                      subst (λ x. exists_row (in_use req.code) x.world.db.servers ≡ false)
                        (ap (λ x. x.1) (rw (good, full, read, status, saved) at h)) stored
                ]
        ]
      ]
    ]
