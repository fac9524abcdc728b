-- ===== src/Api/Tunnel/Answers.antt =====
-- Which answers an error of `Provision` may get, over any store and any edge.
use proxify_vpn.Api.Respond.Codes.{IsPublic}
use proxify_vpn.Base.{true, ◌≡◌, ◌⊎◌}
use proxify_vpn.Errors.{Error, err, wrapped}
use proxify_vpn.Provision.Selector.{Request}
use proxify_vpn.Provision.Storer.{Service}

module _ {S : Type 0} (v : Service S) where
  -- The error is that of a read that failed: of the entitlement, of the device, of the user's devices
  -- or of the servers.
  abbrev pub IsOfRead : Request → Error → Type 0
  IsOfRead req e =
      (t : S) × (x : Error) × ((((v.store.entitlement req.user_id t).0 ≡ err x)
          × (e ≡ wrapped "entitlement" x))
        ⊎ ((((v.store.device_by_id req.device_id t).0 ≡ err x) × (e ≡ wrapped "device" x))
            ⊎ ((((v.store.devices_by_user req.user_id t).0 ≡ err x) × (e ≡ wrapped "devices" x))
                ⊎ (((v.store.servers true t).0 ≡ err x) × (e ≡ x)))))

  abbrev IsAnswered : Request → Error → Type 0
  IsAnswered req e = IsPublic e ⊎ IsOfRead req e
