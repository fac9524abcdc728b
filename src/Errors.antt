-- ===== src/Errors.antt =====
-- Go's `error` values: the sentinels that the packages declare, wrapped by `fmt.Errorf`, and
-- `errors.Is`. `nil` is the absence of an error, so a fallible call returns `Result`.
-- server/internal/store/store.go, server/internal/provision/provision.go,
-- server/internal/edge/edge.go, server/internal/auth/auth.go, server/internal/wgkey/wgkey.go,
-- edge/internal/wg/wg.go.
use proxify_vpn.Base.{Bool, String, false, if◌then◌else◌, inl, inr, refl, true, ℕ, ◌==◌, ◌≡◌, ◌⊎◌}

pub data Sentinel : Type 0 where
  not_entitled device_limit no_server edge_unavailable : Sentinel
  not_found conflict no_addresses : Sentinel
  unreachable rejected : Sentinel
  no_rows unique_violation : Sentinel
  wg_invalid_key wg_invalid_ip : Sentinel
  invalid_token expired_token : Sentinel
  wgkey_invalid : Sentinel

abbrev pub sentinel_code : Sentinel → ℕ
sentinel_code not_entitled = 0
sentinel_code device_limit = 1
sentinel_code no_server = 2
sentinel_code edge_unavailable = 3
sentinel_code not_found = 4
sentinel_code conflict = 5
sentinel_code no_addresses = 6
sentinel_code unreachable = 7
sentinel_code rejected = 8
sentinel_code no_rows = 9
sentinel_code unique_violation = 10
sentinel_code wg_invalid_key = 11
sentinel_code wg_invalid_ip = 12
sentinel_code invalid_token = 13
sentinel_code expired_token = 14
sentinel_code wgkey_invalid = 15

-- `text` is an error of a library or of `errors.New` inside a function. `wrapped` is
-- `fmt.Errorf("prefix: %w", e)` and `noted` is `fmt.Errorf("%w: %v", e, note)`.
pub data Error : Type 0 where
  sentinel : Sentinel → Error
  text : String → Error
  wrapped : String → Error → Error
  noted : Error → Error → Error

-- `errors.Is(e, s)`: it looks through `%w` and not through `%v`.
abbrev pub error_is : Error → Sentinel → Bool
error_is (sentinel t) s = sentinel_code t == sentinel_code s
error_is (text m) s = false
error_is (wrapped m e) s = error_is e s
error_is (noted e note) s = error_is e s

pub data Result {ℓ} (A : Type ℓ) : Type ℓ where
  ok : A → Result A
  err : Error → Result A

pub Result-cases {ℓ} :
    {A : Type ℓ} (r : Result A) → ((a : A) × (r ≡ ok a)) ⊎ ((e : Error) × (r ≡ err e))
Result-cases (ok a) = inl (a, refl)
Result-cases (err e) = inr (e, refl)

-- A guard that was passed.
pub unless-ok :
    {B : Type 0} (t : Bool) (e : Error) (r : Result B) {b : B}
    → (if t then err e else r) ≡ ok b
    → (t ≡ false) × (r ≡ ok b)
unless-ok true e r h = absurd (cc)
unless-ok false e r h = (refl, h)

pub ok-inj : {A : Type 0} {a b : A} → ok a ≡ ok b → a ≡ b
ok-inj h = cc

pub err-inj : {A : Type 0} {d e : Error} → ◌≡◌ {A = Result A} (err d) (err e) → d ≡ e
err-inj h = cc

-- `mapErr` of the store: the driver's errors become the store's.
unfoldable pub map_err : Error → Error
map_err e =
    if error_is e no_rows
    then sentinel not_found
    else (if error_is e unique_violation then sentinel conflict else e)
