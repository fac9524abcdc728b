-- ===== src/Api/Guards/Entry.antt =====
-- Who passes the guards.
use proxify_vpn.Api.Guards.{admin_only, authenticated, bearer_token, unauthorized}
use proxify_vpn.Api.Respond.{Outcome, Response, Step, answered, write_error}
use proxify_vpn.Api.Site.{ApiServer, Site}
use proxify_vpn.Auth.{Claims, verify}
use proxify_vpn.Auth.Tokens.{IsSigned, verify-IsSigned}
use proxify_vpn.Base.{Bool-cases, String, arith, inl, inr, refl, ℕ, ◌=?◌, ◌≡◌, ◌≢◌, ◌⊎◌}
use proxify_vpn.Errors.{Result-cases}

-- An answer that the handler did not give, with nothing changed.
abbrev pub IsRefused : ℕ → Site → Outcome Response × Site → Type 0
IsRefused status s o = (r : Response) × (r.status ≡ status) × (o ≡ (answered r, s))

module _ (api : ApiServer) (authorization : String) where
  -- The handler runs for the user of a token that was signed with the server's secret, names them
  -- and has not expired; any other request is answered 401 and changes nothing.
  pub authenticated-entry :
      (next : String → Step Site Response) (s : Site)
      → ((c : Claims) × IsSigned api.crypto api.signer s.world.now (bearer_token authorization) c
          × (authenticated api authorization next s ≡ next c.subject s))
        ⊎ IsRefused 401 s (authenticated api authorization next s)
  unfolding authenticated
  authenticated-entry next s = elim (Bool-cases (bearer_token authorization =? "")) [
    | inl missing ↦
        inr (write_error 401 "unauthorized" "missing bearer token", refl, rw missing refl)
    | inr given ↦
        elim (Result-cases
          (verify api.crypto api.signer s.world.now (bearer_token authorization))) [
            | inl (c, e) ↦
                inl (c, verify-IsSigned api.crypto api.signer s.world.now _ c e, rw (given, e) refl)
            | inr (x, e) ↦ inr (unauthorized api x, refl, rw (given, e) refl)
          ]
  ]

  -- An operator's handler runs only for the exact token that is configured; otherwise the answer is
  -- 401, or 404 where no token is configured, and nothing changes.
  pub admin_only-entry :
      (next : Step Site Response) (s : Site)
      → ((bearer_token authorization ≡ api.admin_token)
          × (api.admin_token ≢ "")
          × (admin_only api authorization next s ≡ next s))
        ⊎ (IsRefused 401 s (admin_only api authorization next s)
            ⊎ ((api.admin_token ≡ "") × IsRefused 404 s (admin_only api authorization next s)))
  unfolding admin_only
  admin_only-entry next s = elim (Bool-cases (api.admin_token =? "")) [
    | inl off ↦
        inr (inr (ground arith, (write_error 404 "not_found" "not found", refl, rw off refl)))
    | inr on ↦ elim (Bool-cases (bearer_token authorization =? api.admin_token)) [
      | inl same ↦ inl (ground arith, ground arith, rw (on, same) refl)
      | inr other ↦
          inr
            (inl (write_error 401 "unauthorized" "admin token required", refl, rw (on, other) refl))
    ]
  ]
