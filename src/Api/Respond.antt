-- ===== src/Api/Respond.antt =====
-- server/internal/api/respond.go, and what the handlers answer. A handler is a chain of steps, each
-- of which may answer and so end it. The JSON of a body is not written out: its fields are.
pub mod Codes
use proxify_vpn.Base.{Bool, List, Option, String, false, if◌then◌else◌, none, some, true, ℕ, ◌≡◌}
use proxify_vpn.Base.Effects.{Call}
use proxify_vpn.Errors.{
  Error, Result, conflict, device_limit, edge_unavailable, err, error_is, no_addresses, no_server,
  not_entitled, not_found, ok, rejected,
}
use proxify_vpn.Model.{Entitlement, PeerState, ServerStatus, User}
use proxify_vpn.Provision.Config.{TunnelConfig}

pub record DeviceView : Type 0 where
  pub id : String
  pub name : String
  pub platform : String
  pub created_at : ℕ
  pub last_seen_at : Option ℕ

pub record AssignmentView : Type 0 where
  pub server_code : String
  pub state : PeerState
  pub ready : Bool
  pub tunnel_ip : String

pub record ServerView : Type 0 where
  pub code : String
  pub display_name : String
  pub country_code : String
  pub region : String
  pub load : String

pub record PlanView : Type 0 where
  pub code : String
  pub name : String
  pub duration_days : ℕ
  pub price_kobo : ℕ
  pub price_naira : ℕ
  pub currency : String
  pub data_cap_bytes : Option ℕ
  pub device_limit : ℕ
  pub is_free : Bool

pub record TokenResponse : Type 0 where
  pub access_token : String
  pub refresh_token : String
  pub expires_at : ℕ
  pub user_id : String

pub data Body : Type 0 where
  no_body : Body
  -- `errorBody`: the code, the message and `retry_after_seconds`, which is left out at 0
  error_body : String → String → ℕ → Body
  tokens : TokenResponse → Body
  tunnel : TunnelConfig → Body
  registered_device : DeviceView → String → Body
  device_list : List DeviceView → Body
  rotated_key : String → String → Body
  revoking_count : ℕ → Body
  assignment_list : List AssignmentView → Body
  server_list : List ServerView → Body
  plan_list : List PlanView → Body
  account : User → Entitlement → List DeviceView → Body
  checkout : String → String → String → ℕ → String → Body
  unpaid : String → Body
  settled_answer : Bool → Entitlement → Body
  received : Body
  server_saved : String → String → ServerStatus → Body
  status_saved : String → ServerStatus → Body
  resynced : String → Body
  granted_answer : String → String → ℕ → Body
  is_ok : Bool → Body
  database_up : Bool → Body

pub record Response : Type 0 where
  pub status : ℕ
  pub body : Body

abbrev pub write_json : ℕ → Body → Response
write_json status body = record { status = status; body = body }

-- `writeError`
abbrev pub write_error : ℕ → String → String → Response
write_error status code message = write_json status (error_body code message 0)

-- `writeDomainError`: the first sentinel that the error is decides.
unfoldable pub write_domain_error : Error → Response
write_domain_error e =
    if error_is e not_entitled
    then write_error 402 "not_entitled" "no active subscription — buy a pass to connect"
    else (if error_is e device_limit
        then write_error 409 "device_limit"
            "this plan's device limit is reached — remove a device or upgrade"
        else (if error_is e no_server
            then write_error 503 "no_server" "no server is available right now"
            else (if error_is e edge_unavailable
                then write_json 503 (
                    error_body "edge_unavailable"
                      "could not reach a server — retrying in the background" 5)
                else (if error_is e not_found
                    then write_error 404 "not_found" "not found"
                    else (if error_is e conflict
                        then write_error 409 "conflict" "already exists"
                        else (if error_is e no_addresses
                            then write_error 503 "server_full" "server is full"
                            else (if error_is e rejected
                                then write_error 502 "edge_rejected"
                                    "server rejected the configuration"
                                else write_error 500 "internal" "something went wrong")))))))

-- A step goes on with a value or has answered.
pub data Outcome (A : Type 0) : Type 0 where
  going : A → Outcome A
  answered : Response → Outcome A

abbrev pub finish : Outcome Response → Response
finish (going r) = r
finish (answered r) = r

abbrev pub Step : Type 0 → Type 0 → Type 0
Step S A = S → Outcome A × S

abbrev pub Handler : Type 0 → Type 0
Handler S = S → Response × S

module _ {S : Type 0} where
  abbrev pub answer : {A : Type 0} → Response → Step S A
  answer r s = (answered r, s)

  abbrev pub go_on : {A : Type 0} → A → Step S A
  go_on a s = (going a, s)

  abbrev pub after : {A B : Type 0} → (A → Step S B) → Outcome A → Step S B
  after k (going a) = k a
  after k (answered r) = answer r

  infixl 5 ◌>>=◌ ◌>>◌
  abbrev pub ◌>>=◌ : {A B : Type 0} → Step S A → (A → Step S B) → Step S B
  m >>= k = λ s. after k (m s).0 (m s).1

  abbrev pub ◌>>◌ : {A B : Type 0} → Step S A → Step S B → Step S B
  m >> k = m >>= λ _. k

  -- `if test { writeError(…); return }`
  abbrev pub refuse_if : Bool → Response → Step S (Unit {0})
  refuse_if true r = answer r
  refuse_if false r = go_on tt

  abbrev pub result_or : {A : Type 0} → (Error → Response) → Result A → Step S A
  result_or fallback (ok a) = go_on a
  result_or fallback (err e) = answer (fallback e)

  -- `a, err := m; if err != nil { fallback(err); return }`
  abbrev pub call_or : {A : Type 0} → (Error → Response) → Call S A → Step S A
  call_or fallback m s = result_or fallback (m s).0 (m s).1

  -- The common case: `writeDomainError(w, err)`.
  abbrev pub call : {A : Type 0} → Call S A → Step S A
  call m = call_or write_domain_error m

  -- `a, err := m`, with `err` looked at later.
  abbrev pub result_of : {A : Type 0} → Call S A → Step S (Result A)
  result_of m s = (going (m s).0, (m s).1)

  -- A call whose error is only logged.
  abbrev pub logged_only : {A : Type 0} → Call S A → Step S (Unit {0})
  logged_only m s = (going tt, (m s).1)

  -- `decodeJSON`: none is a body that does not parse, is too large or has an unknown field.
  abbrev pub decode_json : {A : Type 0} → Option A → Step S A
  decode_json none = answer (write_error 400 "invalid_request" "could not parse request body")
  decode_json (some a) = go_on a

  abbrev pub handle : Step S Response → Handler S
  handle m s = (finish (m s).0, (m s).1)

abbrev pub is_going : {A : Type 0} → Outcome A → Bool
is_going (going a) = true
is_going (answered r) = false

-- A handler that has answered does not go on.
pub not_going :
    {S A : Type 0} (x : Outcome A × S) {a : A} {s' : S}
    → x ≡ (going a, s')
    → is_going x.0 ≡ false
    → ⊥
not_going x h e = cc
