-- ===== src/Api/Devices/Removal.antt =====
-- What is left of a device that was removed.
use proxify_vpn.Api.Devices.{handle_delete_device}
use proxify_vpn.Api.Respond.{handle, write_error}
use proxify_vpn.Api.Site.{Site}
use proxify_vpn.Base.{
  =?-eq, Bool-cases, List, String, [], ap, arith, false, inl, inr, not, refl, sym, ℕ, ◌=?◌, ◌∙◌,
  ◌∷◌, ◌≡◌, ◌⊎◌,
}
use proxify_vpn.Base.Rows.{exists_row, rows_where}
use proxify_vpn.Errors.{Error, Result-cases, err, ok, ok-inj}
use proxify_vpn.Model.{Device}
use proxify_vpn.Provision.Engine.{deprovision_device, new_service}
use proxify_vpn.Store.Db.{PeerRow}
use proxify_vpn.Store.Devices.{device_by_id, revoke_device, unrevoked}
use proxify_vpn.Store.Peers.{begin_revoke_for_device, live_and, on_device}
use proxify_vpn.World.{World, world_service, world_store}

-- None of the device's peers is live, the device is retired, and other devices' peers are as before.
pub record IsRemoved (id : String) (w w' : World) : Type 0 where
  pub silent : exists_row (live_and (on_device id)) w'.db.peers ≡ false
  pub retired : exists_row (unrevoked id) w'.db.devices ≡ false
  pub others_kept :
      rows_where (λ r. not (on_device id r)) w'.db.peers
      ≡ rows_where (λ r. not (on_device id r)) w.db.peers

silenced :
    (now : ℕ) (id : String) (rows : List PeerRow)
    → exists_row (live_and (on_device id)) (begin_revoke_for_device now id rows).1 ≡ false
unfolding begin_revoke_for_device
silenced now id [] = refl
silenced now id (r ∷ rows) = ground (arith, silenced now id rows)

others :
    (now : ℕ) (id : String) (rows : List PeerRow)
    → rows_where (λ r. not (on_device id r)) (begin_revoke_for_device now id rows).1
      ≡ rows_where (λ r. not (on_device id r)) rows
unfolding begin_revoke_for_device
others now id [] = refl
others now id (r ∷ rows) = ground (arith, others now id rows)

retires :
    (now : ℕ) (id : String) (rows : List Device)
    → exists_row (unrevoked id) (revoke_device now id rows) ≡ false
unfolding revoke_device
retires now id [] = refl
retires now id (d ∷ rows) = ground (arith, retires now id rows)

-- The device is there and is the user's, whether or not it was retired before.
abbrev pub IsOwner : String → String → Site → Type 0
IsOwner user_id id s =
    (d : Device) × (device_by_id id s.world.db.devices ≡ ok d) × (d.user_id ≡ user_id)

-- The owner's request, and only the owner's, is answered 204 and removes the device: none of its peers
-- stays live, it is retired, and other devices' peers are as before. To anybody else, and for an unknown
-- device, the answer is 404 and nothing changes.
pub handle_delete_device-IsRemoved :
    (user_id id : String) (s : Site)
    → IsOwner user_id id s
        × ((handle (handle_delete_device user_id id) s).0.status ≡ 204)
        × IsRemoved id s.world (handle (handle_delete_device user_id id) s).1.world
      ⊎ ¬ IsOwner user_id id s
        × (handle (handle_delete_device user_id id) s
            ≡ (write_error 404 "not_found" "device not found", s))
unfolding handle_delete_device deprovision_device world_service world_store new_service
handle_delete_device-IsRemoved user_id id s =
    elim (Result-cases (device_by_id id s.world.db.devices)) [
      | inr (e, missing) ↦ inr ((λ (d, found, own). unfound missing found), rw missing refl)
      | inl (d, found) ↦ elim (Bool-cases (d.user_id =? user_id)) [
        | inr foreign ↦ inr (
          (λ (d', found', own). not_owner d d' found found' own foreign),
          rw (found, foreign) refl,
        )
        | inl own ↦ inl (
          (d, found, =?-eq d.user_id user_id own),
          rw (found, own) refl,
          rw (found, own)
              (record {
                silent = silenced s.world.now id s.world.db.peers;
                retired = retires s.world.now id s.world.db.devices;
                others_kept = others s.world.now id s.world.db.peers;
              }),
        )
      ]
    ]
  where
    unfound :
        {e : Error} {d : Device}
        → device_by_id id s.world.db.devices ≡ err e
        → device_by_id id s.world.db.devices ≡ ok d
        → ⊥
    unfound missing found = cc

    not_owner :
        (d d' : Device)
        → device_by_id id s.world.db.devices ≡ ok d
        → device_by_id id s.world.db.devices ≡ ok d'
        → d'.user_id ≡ user_id
        → (d.user_id =? user_id) ≡ false
        → ⊥
    not_owner d d' found found' own foreign =
        let same : d ≡ d' = ok-inj (sym found ∙ found') in
        let named : d.user_id ≡ user_id = ap (λ x. x.user_id) same ∙ own in absurd (ground arith)
