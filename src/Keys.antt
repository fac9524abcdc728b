-- ===== src/Keys.antt =====
-- server/internal/wgkey/wgkey.go: a WireGuard public key, checked at the API's boundary. base64 is
-- an argument.
pub mod Canonical
use Prim.Native.String.{char_at}
use proxify_vpn.Base.{
  Option, String, if◌then◌else◌, none, not, some, suc, zero, ℕ, ◌==◌, ◌=?◌, ◌||◌,
}
use proxify_vpn.Base.Text.{byte_length}
use proxify_vpn.Errors.{Result, err, ok, sentinel, wgkey_invalid}

-- `base64.StdEncoding`, over byte strings as texts.
pub record Base64 : Type 0 where
  pub encode : String → String
  pub decode : String → Option String

-- `len` of a byte string: one byte for each character.
unfoldable pub raw_length : String → ℕ
raw_length String.[] = 0
raw_length (String.◌∷◌ c s) = suc (raw_length s)

abbrev pub key_len : ℕ
key_len = 32

-- `n` zero bytes.
unfoldable pub zero_bytes : ℕ → String
zero_bytes zero = String.[]
zero_bytes (suc n) = String.◌∷◌ (char_at "\0" 0) (zero_bytes n)

module _ (b : Base64) where
  abbrev pub checked_key : Option String → Result String
  checked_key none = err (sentinel wgkey_invalid)
  checked_key (some raw) =
      if not (raw_length raw == key_len) || raw =? zero_bytes key_len
      then err (sentinel wgkey_invalid)
      else ok (b.encode raw)

  -- `Validate`: the key in canonical form.
  unfoldable pub validate : String → Result String
  unfolding byte_length raw_length zero_bytes
  validate key =
      if not (byte_length key == 44)
      then err (sentinel wgkey_invalid)
      else checked_key (b.decode key)
