-- ===== src/Auth.antt =====
-- server/internal/auth/auth.go: passwords, access tokens and refresh tokens. A byte string is a text.
-- bcrypt, SHA-2, the random source and the encodings of a token's parts are arguments.
pub mod Tokens
use proxify_vpn.Base.{
  Bool, List, Option, String, [], if◌then◌else◌, leb, ltb, none, not, some, ℕ, ◌+◌, ◌/◌, ◌=?◌, ◌∷◌,
}
use proxify_vpn.Base.Split.{split}
use proxify_vpn.Base.Text.{byte_length, ◌<>◌}
use proxify_vpn.Errors.{Result, err, expired_token, invalid_token, ok, sentinel, text, wrapped}

-- `Claims`; the times are in seconds.
pub record Claims : Type 0 where
  pub subject : String
  pub device_id : String
  pub issued_at : ℕ
  pub expires : ℕ

pub record Header : Type 0 where
  pub alg : String
  pub typ : String

-- What the package takes from its libraries. `random` is the n-th draw of `crypto/rand`, base64 is
-- `RawURLEncoding`, and the JSON codecs are those of the two structs.
pub record Crypto : Type 0 where
  pub bcrypt_hash : String → Result String
  pub bcrypt_matches : String → String → Bool
  pub hmac : String → String → String
  pub sha256 : String → String
  pub random : ℕ → Result String
  pub encode64 : String → String
  pub decode64 : String → Option String
  pub marshal_header : Header → String
  pub unmarshal_header : String → Option Header
  pub marshal_claims : Claims → String
  pub unmarshal_claims : String → Option Claims

pub record Signer : Type 0 where
  pub secret : String
  pub ttl : ℕ

-- `t.Unix()` of a time in nanoseconds.
abbrev pub unix : ℕ → ℕ
unix t = t / 1000000000

abbrev pub or_invalid : {A B : Type 0} → Option A → (A → Result B) → Result B
or_invalid none k = err (sentinel invalid_token)
or_invalid (some a) k = k a

-- The last checks of `Verify`, on the claims.
abbrev pub current_claims : ℕ → Claims → Result Claims
current_claims now c =
    if c.subject =? ""
    then err (sentinel invalid_token)
    else (if leb c.expires (unix now) then err (sentinel expired_token) else ok c)

module _ (crypto : Crypto) where
  -- `HashPassword`
  unfoldable pub hash_password : String → Result String
  unfolding byte_length
  hash_password plain =
      if ltb (byte_length plain) 8
      then err (text "auth: password must be at least 8 characters")
      else (if ltb 72 (byte_length plain)
          then err (text "auth: password must be at most 72 bytes")
          else crypto.bcrypt_hash plain)

  -- `CheckPassword`
  unfoldable pub check_password : String → String → Bool
  check_password hash plain = crypto.bcrypt_matches hash plain

  -- `HashRefreshToken`
  unfoldable pub hash_refresh_token : String → String
  hash_refresh_token token = crypto.sha256 token

  abbrev pub token_of : Result String → Result (String × String)
  token_of (err e) = err (wrapped "auth: generate refresh token" e)
  token_of (ok buf) = ok (crypto.encode64 buf, crypto.sha256 (crypto.encode64 buf))

  -- `NewRefreshToken`, on the n-th draw: the token to hand out and the hash to store.
  unfoldable pub new_refresh_token : ℕ → Result (String × String)
  new_refresh_token n = token_of (crypto.random n)

  module _ (signer : Signer) where
    abbrev pub sign : String → String
    sign msg = crypto.hmac signer.secret msg

    abbrev pub claims_of : ℕ → String → String → Claims
    claims_of now user_id device_id = record {
      subject = user_id;
      device_id = device_id;
      issued_at = unix now;
      expires = unix (now + signer.ttl);
    }

    -- The part that is signed.
    abbrev pub signing : Claims → String
    signing c =
        crypto.encode64 (crypto.marshal_header (record { alg = "HS256"; typ = "JWT" }))
        <> "."
        <> crypto.encode64 (crypto.marshal_claims c)

    -- `Issue`: the token and when it ends.
    unfoldable pub issue : ℕ → String → String → String × ℕ
    issue now user_id device_id =
        let msg = signing (claims_of now user_id device_id) in
        (msg <> "." <> crypto.encode64 (sign msg), now + signer.ttl)

    -- What `Verify` does after the signature was found right.
    abbrev pub verify_signed : ℕ → String → String → Result Claims
    verify_signed now head body = or_invalid (crypto.decode64 head) λ raw_header.
        or_invalid (crypto.unmarshal_header raw_header) λ hdr.
          if not (hdr.alg =? "HS256")
          then err (sentinel invalid_token)
          else or_invalid (crypto.decode64 body)
              λ raw_claims. or_invalid (crypto.unmarshal_claims raw_claims) (current_claims now)

    abbrev pub verify_parts : ℕ → List String → Result Claims
    verify_parts now (head ∷ body ∷ sig ∷ []) = or_invalid (crypto.decode64 sig) λ raw.
        if not (raw =? sign (head <> "." <> body))
        then err (sentinel invalid_token)
        else verify_signed now head body
    verify_parts now _ = err (sentinel invalid_token)

    -- `Verify`
    unfoldable pub verify : ℕ → String → Result Claims
    unfolding split
    verify now token = verify_parts now (split b'.' token)
