-- ===== src/Store/Devices.antt =====
-- server/internal/store/devices.go: devices by their WireGuard public key.
use proxify_vpn.Base.{Bool, List, String, if◌then◌else◌, ltb, none, not, some, ℕ, ◌&&◌, ◌=?◌, ◌∷◌}
use proxify_vpn.Base.Rows.{exists_row, find_row, rows_where, update_where}
use proxify_vpn.Base.Sorting.{sort_by}
use proxify_vpn.Errors.{
  Result, conflict, err, map_err, no_rows, not_found, ok, sentinel, unique_violation,
}
use proxify_vpn.Model.{Device}
use proxify_vpn.Store.Db.{is_null}

abbrev pub keyed : String → Device → Bool
keyed public_key d = d.public_key =? public_key

abbrev pub refresh_device : ℕ → String → String → Device → Device
refresh_device now name app_version d = record d {
  name = name;
  app_version = if app_version =? "" then d.app_version else app_version;
  last_seen_at = some now;
  revoked_at = none;
}

-- `UpsertDevice`: the same key from the same user is refreshed; from another user it is a conflict.
unfoldable pub upsert_device :
    ℕ
    → String
    → String
    → String
    → String
    → String
    → String
    → List Device
    → Result Device × List Device
upsert_device now fresh_id user_id name platform public_key app_version rows =
    let new : Device = record {
      id = fresh_id;
      user_id = user_id;
      name = name;
      platform = platform;
      public_key = public_key;
      app_version = app_version;
      created_at = now;
      last_seen_at = some now;
      revoked_at = none;
    } in
    elim (find_row (keyed public_key) rows) [
      | none ↦ (ok new, new ∷ rows)
      | some d ↦
          if d.user_id =? user_id
          then (
            ok (refresh_device now name app_version d),
            update_where (keyed public_key) (refresh_device now name app_version) rows,
          )
          else (err (sentinel conflict), rows)
    ]

abbrev pub has_id : String → Device → Bool
has_id id d = d.id =? id

-- `DeviceByID`: a revoked device is found too.
unfoldable pub device_by_id : String → List Device → Result Device
device_by_id id rows = elim (find_row (has_id id) rows) [
  | none ↦ err (map_err (sentinel no_rows))
  | some d ↦ ok d
]

abbrev pub is_kept : String → Device → Bool
is_kept user_id d = d.user_id =? user_id && is_null d.revoked_at

-- `DevicesByUser`: the oldest first.
unfoldable pub devices_by_user : String → List Device → List Device
devices_by_user user_id rows =
    sort_by (λ a b. ltb a.created_at b.created_at) (rows_where (is_kept user_id) rows)

abbrev pub unrevoked : String → Device → Bool
unrevoked id d = d.id =? id && is_null d.revoked_at

-- `RotateDeviceKey`, under the UNIQUE constraint on `public_key`.
unfoldable pub rotate_device_key : String → String → List Device → Result (Unit {0}) × List Device
rotate_device_key id new_key rows =
    if exists_row (λ d. keyed new_key d && not (d.id =? id)) rows && exists_row (unrevoked id) rows
    then (err (map_err (sentinel unique_violation)), rows)
    else (if exists_row (unrevoked id) rows
        then (ok tt, update_where (unrevoked id) (λ d. record d { public_key = new_key }) rows)
        else (err (sentinel not_found), rows))

unfoldable pub revoke_device : ℕ → String → List Device → List Device
revoke_device now id = update_where (unrevoked id) (λ d. record d { revoked_at = some now })

unfoldable pub touch_device : String → ℕ → List Device → List Device
touch_device id seen = update_where (has_id id) (λ d. record d { last_seen_at = some seen })
