-- ===== src/Api/Devices.antt =====
-- server/internal/api/device_handlers.go: a user's devices and their WireGuard keys.
pub mod Removal
use proxify_vpn.Api.Respond.{
  DeviceView, Response, Step, answer, call, call_or, decode_json, device_list, go_on, no_body,
  registered_device, result_of, result_or, rotated_key, write_domain_error, write_error, write_json,
  ◌>>=◌, ◌>>◌,
}
use proxify_vpn.Api.Site.{
  ApiServer, Site, executed, find_device, in_world, list_devices, with_devices,
}
use proxify_vpn.Base.{Option, String, if◌then◌else◌, map, ◌=?◌}
use proxify_vpn.Errors.{Error, Result, conflict, err, error_is, ok}
use proxify_vpn.Keys.{validate}
use proxify_vpn.Model.{Device}
use proxify_vpn.Provision.Engine.{deprovision_device}
use proxify_vpn.Store.Devices.{revoke_device, rotate_device_key, upsert_device}
use proxify_vpn.Store.Payments.{or_default}
use proxify_vpn.World.{fresh_id, world_service}

pub record RegisterDeviceRequest : Type 0 where
  pub name : String
  pub platform : String
  pub public_key : String
  pub app_version : String

pub record RotateKeyRequest : Type 0 where
  pub public_key : String

abbrev pub bad_key : Error → Response
bad_key e = write_error 400 "invalid_public_key" "public_key must be a base64 WireGuard key"

abbrev pub no_device : Response
no_device = write_error 404 "not_found" "device not found"

abbrev pub conflict_or : Response → Error → Response
conflict_or r e = if error_is e conflict then r else write_domain_error e

abbrev pub device_view : Device → DeviceView
device_view d = record {
  id = d.id;
  name = d.name;
  platform = d.platform;
  created_at = d.created_at;
  last_seen_at = d.last_seen_at;
}

-- `err != nil || device.UserID != userID(r)`
abbrev pub own_device : String → Result Device → Step Site Device
own_device user_id (err e) = answer no_device
own_device user_id (ok d) = if d.user_id =? user_id then go_on d else answer no_device

abbrev pub device_of : String → String → Step Site Device
device_of user_id id = result_of (in_world (find_device id)) >>= own_device user_id

-- `handleListDevices`
unfoldable pub handle_list_devices : String → Step Site Response
handle_list_devices user_id = do
  devices ← call (in_world (list_devices user_id))
  go_on (write_json 200 (device_list (map device_view devices)))

-- `handleDeleteDevice`: the peers are taken off before the device is retired.
unfoldable pub handle_delete_device : String → String → Step Site Response
handle_delete_device user_id id = do
  _ ← device_of user_id id
  _ ← call (in_world (deprovision_device world_service id))
  _ ← call (in_world (with_devices (λ w. executed (revoke_device w.now id w.db.devices))))
  go_on (write_json 204 no_body)

module _ (api : ApiServer) where
  abbrev pub checked : String → Step Site String
  checked key s = result_or bad_key (validate api.keys key) s

  -- `handleRegisterDevice`
  unfoldable pub handle_register_device : String → Option RegisterDeviceRequest → Step Site Response
  unfolding validate
  handle_register_device user_id body = do
    req ← decode_json body
    key ← checked req.public_key
    device ←
        call_or
          (conflict_or
            (write_error 409 "key_in_use" "that public key is registered to another account"))
          (in_world (
            with_devices (λ w.
              upsert_device w.now (fresh_id w) user_id (or_default req.name "Android device")
                (or_default req.platform "android") key req.app_version w.db.devices)))
    go_on (write_json 200 (registered_device (device_view device) device.public_key))

  -- `handleRotateKey`: the device must be provisioned again to bring the key to the edge.
  unfoldable pub handle_rotate_key : String → String → Option RotateKeyRequest → Step Site Response
  unfolding validate
  handle_rotate_key user_id id body = do
    req ← decode_json body
    key ← checked req.public_key
    _ ← device_of user_id id
    _ ←
        call_or (conflict_or (write_error 409 "key_in_use" "that public key is already registered"))
          (in_world (with_devices (λ w. rotate_device_key id key w.db.devices)))
    go_on (write_json 200 (rotated_key id key))
