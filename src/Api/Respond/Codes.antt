-- ===== src/Api/Respond/Codes.antt =====
-- Which answer an error of the provisioning engine gets.
use proxify_vpn.Agent.Wg.{is_some}
use proxify_vpn.Api.Respond.{Response, error_body, write_domain_error, write_json}
use proxify_vpn.Base.{
  Bool, Bool-cases, List, Option, [], ap, arith, inl, inr, leb, none, refl, some, suc, true, ℕ, ◌<◌,
  ◌==◌, ◌||◌, ◌∙◌, ◌∷◌, ◌≡◌,
}
use proxify_vpn.Errors.{Error, Result-cases, err, error_is, rejected}
use proxify_vpn.Model.{Device, Entitlement, Server}
use proxify_vpn.Provision.Engine.{gave_up, provision_on, try_servers}
use proxify_vpn.Provision.Storer.{Service}

abbrev pub retrying : Response
retrying =
    write_json 503
      (error_body "edge_unavailable" "could not reach a server — retrying in the background" 5)

gave_up-answer : (e : Error) → write_domain_error (gave_up (some e)) ≡ retrying
unfolding write_domain_error
gave_up-answer e = refl

-- The statuses that a request for a tunnel may get: 200, or what is wrong with it, or that no
-- server serves it now.
abbrev pub is_tunnel_status : ℕ → Bool
is_tunnel_status n = n == 200 || (n == 400 || (n == 402 || (n == 404 || (n == 409 || n == 503))))

abbrev pub IsPublic : Error → Type 0
IsPublic e = is_tunnel_status (write_domain_error e).status ≡ true

pub gave_up-IsPublic : (o : Option Error) → IsPublic (gave_up o)
unfolding write_domain_error
gave_up-IsPublic none = refl
gave_up-IsPublic (some e) = refl

module _ {S : Type 0} (v : Service S) (device : Device) (ent : Entitlement) where
  -- The loop over the candidates ends with `gave_up`: of the last failure, if there was any.
  pub try_servers-gave_up :
      (i : ℕ) (last : Option Error) (list : List Server) (s : S) (e : Error)
      → (try_servers v device ent i last list s).0 ≡ err e
      → (o : Option Error) × (e ≡ gave_up o) × (is_some last ≡ true → is_some o ≡ true)
  unfolding try_servers
  try_servers-gave_up i last [] s e h = (last, ground arith, λ k. k)
  try_servers-gave_up i last (srv ∷ rest) s e h = elim (Bool-cases (leb v.max_inline_attempts i)) [
    | inl enough ↦ (last, ground arith, λ k. k)
    | inr more ↦ elim (Result-cases (provision_on v device srv ent s).0) [
      | inl (cfg, took) ↦ absurd (ground arith)
      | inr (x, refused) ↦ elim (Bool-cases (error_is x rejected)) [
        | inl final ↦ (some x, ground arith, λ k. refl)
        | inr transient ↦
            let (o, e', some_o) =
              try_servers-gave_up (suc i) (some x) rest (provision_on v device srv ent s).1 e
                (ground arith) in
            (o, e', λ k. some_o refl)
      ]
    ]
  ]

  -- Once a server was tried, a request that fails is always told to come back in 5 seconds, also
  -- when the server rejected the configuration: what the loop wraps is not looked at.
  pub try_servers-retrying :
      (srv : Server) (rest : List Server) (s : S) (e : Error)
      → 0 < v.max_inline_attempts
      → (try_servers v device ent 0 none (srv ∷ rest) s).0 ≡ err e
      → write_domain_error e ≡ retrying
  unfolding try_servers
  try_servers-retrying srv rest s e some_try h =
      elim (Result-cases (provision_on v device srv ent s).0) [
        | inl (cfg, took) ↦ absurd (ground arith)
        | inr (x, refused) ↦ elim (Bool-cases (error_is x rejected)) [
          | inl final ↦ ap write_domain_error (last_one x final refused) ∙ gave_up-answer x
          | inr transient ↦
              let (o, e', some_o) =
                try_servers-gave_up 1 (some x) rest (provision_on v device srv ent s).1 e
                  (ground arith) in
              ap write_domain_error e' ∙ told o (some_o refl)
        ]
      ]
    where
      last_one :
          (x : Error)
          → error_is x rejected ≡ true
          → (provision_on v device srv ent s).0 ≡ err x
          → e ≡ gave_up (some x)
      last_one x final refused = ground arith

      told : (o : Option Error) → is_some o ≡ true → write_domain_error (gave_up o) ≡ retrying
      told none k = absurd (cc)
      told (some x) k = gave_up-answer x
