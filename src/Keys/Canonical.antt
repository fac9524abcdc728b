-- ===== src/Keys/Canonical.antt =====
-- The keys that `Validate` returns.
use proxify_vpn.Base.{Option, String, arith, none, refl, some, ◌≡◌, ◌≢◌}
use proxify_vpn.Base.Text.{byte_length}
use proxify_vpn.Errors.{ok}
use proxify_vpn.Keys.{Base64, checked_key, key_len, raw_length, validate, zero_bytes}

-- What base64 promises: decoding undoes encoding, and 32 bytes take 44 characters.
pub record IsBase64 (b : Base64) : Type 0 where
  pub decode-encode :
      (key raw : String) → b.decode key ≡ some raw → b.decode (b.encode raw) ≡ some raw
  pub length-encode :
      (key raw : String)
      → b.decode key ≡ some raw
      → raw_length raw ≡ key_len
      → byte_length (b.encode raw) ≡ 44

module _ (b : Base64) where
  -- What a key that was taken is.
  pub record IsKey (key k : String) : Type 0 where
    pub raw : String
    pub decoded : b.decode key ≡ some raw
    pub sized : raw_length raw ≡ key_len
    pub nonzero : raw ≢ zero_bytes key_len
    pub canonical : k ≡ b.encode raw

  checked_key-IsKey :
      (key : String) (o : Option String) (k : String)
      → b.decode key ≡ o
      → checked_key b o ≡ ok k
      → IsKey key k
  checked_key-IsKey key none k e h = absurd (cc)
  checked_key-IsKey key (some raw) k e h = record {
    raw = raw;
    decoded = e;
    sized = ground arith;
    nonzero = ground arith;
    canonical = ground arith;
  }

  pub validate-IsKey : (key k : String) → validate b key ≡ ok k → IsKey key k
  unfolding validate
  validate-IsKey key k h = checked_key-IsKey key (b.decode key) k refl (ground arith)

  -- A key in canonical form: 32 bytes, not all of them zero, encoded. `Validate` keeps it.
  pub validate-encode :
      IsBase64 b
      → (key raw : String) → b.decode key ≡ some raw
      → raw_length raw ≡ key_len
      → raw ≢ zero_bytes key_len
      → validate b (b.encode raw) ≡ ok (b.encode raw)
  unfolding validate
  validate-encode L key raw decoded sized nonzero =
      rw (L.length-encode key raw decoded sized, L.decode-encode key raw decoded) (ground arith)

  -- Whatever spelling of a key is taken, the one that is stored is taken again, and as it is.
  pub validate-canonical :
      IsBase64 b → (key k : String) → validate b key ≡ ok k → validate b k ≡ ok k
  validate-canonical L key k h =
      let i = validate-IsKey key k h in
      rw i.canonical (validate-encode L key i.raw i.decoded i.sized i.nonzero)
