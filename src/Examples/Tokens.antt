-- ===== src/Examples/Tokens.antt =====
-- The theorems of `Auth` and `Api/Guards` at concrete inputs.
use proxify_vpn.Api.Accounts.{handle_me}
use proxify_vpn.Api.Guards.{authenticated, bearer_token}
use proxify_vpn.Api.Guards.Entry.{IsRefused, authenticated-entry}
use proxify_vpn.Api.Routes.{reconcile_now, route}
use proxify_vpn.Api.Routes.Guarded.{HasToken, IsTurnedAway, operators, route-guarded}
use proxify_vpn.Auth.{Claims, Signer, issue, verify}
use proxify_vpn.Auth.Tokens.{IsSigned, verify-issue}
use proxify_vpn.Base.{String, String_discrete, ap, arith, false, none, refl, true, ◌≡◌, ◌⊎◌}
use proxify_vpn.Base.Split.{split}
use proxify_vpn.Base.Text.{contains, is_nil}
use proxify_vpn.Errors.{ok}
use proxify_vpn.Examples.Codec.{escape, read_escaped, strokes, toy_crypto, toy_crypto-IsLawful}
use proxify_vpn.Examples.Site.{open_site, toy_api}
use proxify_vpn.Keys.{raw_length}

abbrev pub toy_signer : Signer
toy_signer = record { secret = "s"; ttl = 5000000000 }

abbrev pub ada_claims : Claims
ada_claims = record { subject = "u1"; device_id = "d1"; issued_at = 2; expires = 7 }

abbrev pub ada_token : String
ada_token = (issue toy_crypto toy_signer 2000000000 "u1" "d1").0

named_user : ◌≡◌ {A = String} "u1" "" → ⊥
unfolding String_discrete
named_user e = true-false (ap is_nil e)
  where
    true-false : false ≡ true → ⊥
    true-false h = cc

verify-issue_example : verify toy_crypto toy_signer 6000000000 ada_token ≡ ok ada_claims
verify-issue_example =
    verify-issue toy_crypto toy_signer toy_crypto-IsLawful 2000000000 6000000000 "u1" "d1"
      named_user (omega arith)

verified : verify toy_crypto toy_signer 6000000000 ada_token ≡ ok ada_claims
unfolding verify issue escape read_escaped split strokes raw_length String_discrete contains
verified = refl

authenticated-entry_example :
    ((c : Claims) × IsSigned toy_crypto toy_signer 800 (bearer_token "Bearer nothing") c
      × (authenticated toy_api "Bearer nothing" handle_me open_site
          ≡ handle_me c.subject open_site))
    ⊎ IsRefused 401 open_site (authenticated toy_api "Bearer nothing" handle_me open_site)
authenticated-entry_example = authenticated-entry toy_api "Bearer nothing" handle_me open_site

-- An operator's request with a user's token.
route-guarded_example :
    HasToken toy_api (λ t. none) (λ t. (ok tt, t)) "Bearer nothing" operators open_site
    ⊎ IsTurnedAway open_site
        (route toy_api (λ t. none) (λ t. (ok tt, t)) "Bearer nothing" reconcile_now open_site)
route-guarded_example =
    route-guarded toy_api (λ t. none) (λ t. (ok tt, t)) "Bearer nothing" reconcile_now open_site
