-- ===== src/Provision/Engine/Limit.antt =====
-- `checkDeviceLimit` of server/internal/provision/provision.go.
use mathlib.Core.List.{Perm}
use proxify_vpn.Base.{
  Bool, List, String, [], ap, arith, false, leb, length, ltb, map, refl, suc, true, zero, ℕ, ◌&&◌,
  ◌+◌, ◌=?◌, ◌||◌, ◌∙◌, ◌∷◌, ◌≡◌, ◌≤◌, ◌⊎◌,
}
use proxify_vpn.Base.Rows.{listed, rows_where}
use proxify_vpn.Base.Sorting.{IsOrdered, IsOrdered-sort_by, sort_by-perm, take}
use proxify_vpn.Model.{Device}
use proxify_vpn.Provision.Engine.{at_least_one, is_allowed, within_first}
use proxify_vpn.Store.Db.{is_null}
use proxify_vpn.Store.Devices.{devices_by_user}

abbrev pub ids : List Device → List String
ids devices = map (λ d. d.id) devices

abbrev pub created_before : Device → Device → Bool
created_before a b = ltb a.created_at b.created_at

within_first-past :
    (i limit : ℕ) (device_id : String) (devices : List Device)
    → limit ≤ i
    → within_first i limit device_id devices ≡ false
unfolding within_first
within_first-past i limit k [] h = refl
within_first-past i limit k (d ∷ devices) h =
    ground (arith, within_first-past (suc i) limit k devices)

within_first-take :
    (i n : ℕ) (device_id : String) (devices : List Device)
    → within_first i (i + n) device_id devices ≡ listed device_id (ids (take n devices))
unfolding within_first
within_first-take i zero k devices = within_first-past i (i + 0) k devices (omega arith)
within_first-take i (suc n) k [] = refl
within_first-take i (suc n) k (d ∷ devices) =
    ground (arith, shift, within_first-take (suc i) n k devices)
  where
    shift : i + suc n ≡ suc i + n
    shift = omega arith

limit_or_one :
    (limit : ℕ)
    → ((1 ≤ limit) × (at_least_one limit ≡ limit)) ⊎ ((limit ≡ 0) × (at_least_one limit ≡ 1))
limit_or_one limit = ground arith

created_before-asym : (a b : Device) → created_before a b ≡ true → created_before b a ≡ false
created_before-asym a b h = ground arith

-- A device may have a tunnel exactly when the user's devices that are not revoked are no more than the
-- limit, or it is one of the first that many of them in the order in which they were created. A limit
-- of zero counts as one.
pub is_allowed-oldest :
    (user_id device_id : String) (limit : ℕ) (rows : List Device)
    → (n : ℕ) × (devices : List Device) × (((1 ≤ limit) × (n ≡ limit)) ⊎ ((limit ≡ 0) × (n ≡ 1)))
      × Perm devices (rows_where (λ d. d.user_id =? user_id && is_null d.revoked_at) rows)
      × IsOrdered created_before devices
      × (is_allowed device_id limit (devices_by_user user_id rows)
          ≡ (leb (length devices) n || listed device_id (ids (take n devices))))
unfolding is_allowed devices_by_user
is_allowed-oldest u k limit rows = (
  at_least_one limit,
  devices_by_user u rows,
  limit_or_one limit,
  sort_by-perm created_before kept_rows,
  IsOrdered-sort_by created_before created_before-asym kept_rows,
  ap (λ b. leb (length (devices_by_user u rows)) (at_least_one limit) || b)
      (ap (λ n. within_first 0 n k (devices_by_user u rows)) (zeroed (at_least_one limit))
        ∙ within_first-take 0 (at_least_one limit) k (devices_by_user u rows)),
)
  where
    kept_rows : List Device
    kept_rows = rows_where (λ d. d.user_id =? u && is_null d.revoked_at) rows

    zeroed : (n : ℕ) → n ≡ 0 + n
    zeroed n = omega arith
