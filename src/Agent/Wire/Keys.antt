-- ===== src/Agent/Wire/Keys.antt =====
-- The two ends agree on keys: `Validate` of server/internal/wgkey and `ValidateKey` of edge/internal/wg.
use proxify_vpn.Agent.Wg.{validate_key}
use proxify_vpn.Base.{String, refl, ◌≡◌}
use proxify_vpn.Errors.{ok}
use proxify_vpn.Keys.{Base64, validate}
use proxify_vpn.Keys.Canonical.{IsBase64, validate-IsKey}

-- A key that the control plane has stored is a key for the agent, in the same form.
pub validate_key-agrees :
    (b : Base64) → IsBase64 b → (key k : String) → validate b key ≡ ok k → validate_key b k ≡ ok k
unfolding validate_key
validate_key-agrees b L key k h =
    let i = validate-IsKey b key k h in
    rw i.canonical (
      rw (L.length-encode key i.raw i.decoded i.sized, L.decode-encode key i.raw i.decoded, i.sized)
        refl)
