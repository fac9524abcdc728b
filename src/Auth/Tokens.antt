-- ===== src/Auth/Tokens.antt =====
-- Access tokens: what `Issue` makes, `Verify` takes, and it takes nothing that was not signed.
use proxify_vpn.Auth.{
  Claims, Crypto, Header, Signer, claims_of, current_claims, issue, or_invalid, sign, signing, unix,
  verify, verify_parts,
}
use proxify_vpn.Base.{
  =?-eq, =?-refl, List, Option, String, String_discrete, [], ap, arith, leb, none, not, refl, some,
  ℕ, ◌+◌, ◌<◌, ◌=?◌, ◌∙◌, ◌∷◌, ◌≡◌, ◌≢◌,
}
use proxify_vpn.Base.Split.{<>_assoc, Lacks, split, split_at, split_none}
use proxify_vpn.Base.Text.{◌<>◌}
use proxify_vpn.Errors.{Result, ok, unless-ok}

-- What the package relies on: decoding undoes encoding, and base64 has no dot.
pub record IsLawful (crypto : Crypto) : Type 0 where
  pub decode64-encode64 : (s : String) → crypto.decode64 (crypto.encode64 s) ≡ some s
  pub encode64-Lacks : (s : String) → Lacks b'.' (crypto.encode64 s)
  pub unmarshal-marshal_header :
      (h : Header) → crypto.unmarshal_header (crypto.marshal_header h) ≡ some h
  pub unmarshal-marshal_claims :
      (c : Claims) → crypto.unmarshal_claims (crypto.marshal_claims c) ≡ some c

split_three :
    (p q r : String)
    → Lacks b'.' p
    → Lacks b'.' q
    → Lacks b'.' r
    → split b'.' ((p <> "." <> q) <> "." <> r) ≡ p ∷ q ∷ r ∷ []
split_three p q r hp hq hr =
    rw (<>_assoc p ("." <> q) ("." <> r), split_at "." p (q <> "." <> r) hp, split_at "." q r hq)
      (ap (λ rest. p ∷ q ∷ rest) (split_none b'.' r hr))

or_invalid-ok :
    {A B : Type 0} (o : Option A) (k : A → Result B) {b : B}
    → or_invalid o k ≡ ok b
    → (a : A) × (o ≡ some a) × (k a ≡ ok b)
or_invalid-ok none k h = absurd (cc)
or_invalid-ok (some a) k h = (a, refl, h)

-- A claim that passes the last checks is the one that was checked.
current_claims-ok :
    (now : ℕ) (c d : Claims)
    → current_claims now c ≡ ok d
    → (c ≡ d) × (d.subject ≢ "") × (unix now < d.expires)
current_claims-ok now c d h =
    let (named, rest) = unless-ok (c.subject =? "") _ _ h in
    let (fresh, same) = unless-ok (leb c.expires (unix now)) _ _ rest in
    (ground arith, ground arith, ground arith)

module _ (crypto : Crypto) (signer : Signer) where
  -- What `Verify` has checked of a token that it takes.
  pub record IsSigned (now : ℕ) (token : String) (c : Claims) : Type 0 where
    pub head : String
    pub body : String
    pub sig : String
    pub three : split b'.' token ≡ head ∷ body ∷ sig ∷ []
    pub signature : crypto.decode64 sig ≡ some (crypto.hmac signer.secret (head <> "." <> body))
    pub raw_header : String
    pub hdr : Header
    pub header_read : crypto.decode64 head ≡ some raw_header
    pub header_parsed : crypto.unmarshal_header raw_header ≡ some hdr
    pub algorithm : hdr.alg ≡ "HS256"
    pub raw_claims : String
    pub claims_read : crypto.decode64 body ≡ some raw_claims
    pub claims_parsed : crypto.unmarshal_claims raw_claims ≡ some c
    pub named : c.subject ≢ ""
    pub unexpired : unix now < c.expires

  current_claims-fresh :
      (now : ℕ) (c : Claims) → c.subject ≢ "" → unix now < c.expires → current_claims now c ≡ ok c
  current_claims-fresh now c named fresh = ground arith

  signed_parts :
      IsLawful crypto
      → (now : ℕ) (c : Claims) → c.subject ≢ ""
      → unix now < c.expires
      → verify_parts crypto signer now (
          crypto.encode64 (crypto.marshal_header (record { alg = "HS256"; typ = "JWT" }))
          ∷ crypto.encode64 (crypto.marshal_claims c)
          ∷ crypto.encode64 (sign crypto signer (signing crypto signer c))
          ∷ [])
        ≡ ok c
  unfolding String_discrete
  signed_parts L now c named fresh =
      rw
        (
          L.decode64-encode64 (sign crypto signer (signing crypto signer c)),
          =?-refl (sign crypto signer (signing crypto signer c)),
          L.decode64-encode64 (crypto.marshal_header (record { alg = "HS256"; typ = "JWT" })),
          L.unmarshal-marshal_header (record { alg = "HS256"; typ = "JWT" }),
          L.decode64-encode64 (crypto.marshal_claims c),
          L.unmarshal-marshal_claims c,
        )
        (current_claims-fresh now c named fresh)

  -- A token is taken as the claims that it was issued for, until the second begins in which it ends.
  pub verify-issue :
      IsLawful crypto
      → (now later : ℕ) (user_id device_id : String) → user_id ≢ ""
      → unix later < unix (now + signer.ttl)
      → verify crypto signer later (issue crypto signer now user_id device_id).0
        ≡ ok (claims_of crypto signer now user_id device_id)
  unfolding verify issue
  verify-issue L now later user_id device_id named fresh =
      let c = claims_of crypto signer now user_id device_id in
      rw
        (split_three
          (crypto.encode64 (crypto.marshal_header (record { alg = "HS256"; typ = "JWT" })))
          (crypto.encode64 (crypto.marshal_claims c))
          (crypto.encode64 (sign crypto signer (signing crypto signer c))) (L.encode64-Lacks _)
          (L.encode64-Lacks _) (L.encode64-Lacks _))
        (signed_parts L later c named fresh)

  -- Whatever `Verify` takes has three parts, the last of which is the signature of the first two
  -- under the secret; its header names HS256, its claims are those of the second part, they name a
  -- user, and they have not expired.
  pub verify-IsSigned :
      (now : ℕ) (token : String) (c : Claims)
      → verify crypto signer now token ≡ ok c
      → IsSigned now token c
  unfolding verify
  verify-IsSigned now token c h = parts (split b'.' token) refl h
    where
      parts :
          (ps : List String)
          → split b'.' token ≡ ps
          → verify_parts crypto signer now ps ≡ ok c
          → IsSigned now token c
      parts [] e h = absurd (cc)
      parts (a ∷ []) e h = absurd (cc)
      parts (a ∷ b ∷ []) e h = absurd (cc)
      parts (a ∷ b ∷ g ∷ x ∷ ps) e h = absurd (cc)
      parts (a ∷ b ∷ g ∷ []) e h =
          let (raw, sig, h₁) = or_invalid-ok (crypto.decode64 g) _ h in
          let (right, h₂) = unless-ok (not (raw =? sign crypto signer (a <> "." <> b))) _ _ h₁ in
          let (raw_header, header, h₃) = or_invalid-ok (crypto.decode64 a) _ h₂ in
          let (hdr, parsed, h₄) = or_invalid-ok (crypto.unmarshal_header raw_header) _ h₃ in
          let (alg, h₅) = unless-ok (not (hdr.alg =? "HS256")) _ _ h₄ in
          let (raw_claims, claims, h₆) = or_invalid-ok (crypto.decode64 b) _ h₅ in
          let (c', read, h₇) = or_invalid-ok (crypto.unmarshal_claims raw_claims) _ h₆ in
          let (same, named, fresh) = current_claims-ok now c' c h₇ in
          record {
            head = a;
            body = b;
            sig = g;
            three = e;
            signature = sig ∙ ap some (=?-eq raw _ (ground arith));
            raw_header = raw_header;
            hdr = hdr;
            header_read = header;
            header_parsed = parsed;
            algorithm = =?-eq hdr.alg "HS256" (ground arith);
            raw_claims = raw_claims;
            claims_read = claims;
            claims_parsed = read ∙ ap some same;
            named = named;
            unexpired = fresh;
          }
