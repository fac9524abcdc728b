-- ===== src/Provision/Engine/Granted.antt =====
-- Who gets a tunnel from `Provision` of server/internal/provision/provision.go, and which.
use proxify_vpn.Base.{
  Bool-cases, List, Option, [], arith, inl, inr, leb, none, some, suc, true, ℕ, ◌=?◌, ◌∷◌, ◌≡◌,
}
use proxify_vpn.Base.Effects.{◌>>=◌}
use proxify_vpn.Base.Rows.{exists_row}
use proxify_vpn.Errors.{Error, Result, Result-cases, error_is, ok, rejected}
use proxify_vpn.Model.{Device, Entitlement, PeerAssignment, Server, applied}
use proxify_vpn.Provision.Config.{TunnelConfig, build_config}
use proxify_vpn.Provision.Engine.{
  check_device_limit, is_allowed, owns, peer_of, provision, provision_entitled, provision_on,
  push_unless_applied, try_servers,
}
use proxify_vpn.Provision.Selector.{Request, candidates}
use proxify_vpn.Provision.Storer.{Service}

module _ {S : Type 0} (v : Service S) where
  -- The configuration came from an assignment of the device's key on one of the servers.
  abbrev pub FromServer : Device → Entitlement → List Server → TunnelConfig → Type 0
  FromServer device ent list cfg =
      (srv : Server) × (a : PeerAssignment) × (s₁ : S) × (exists_row (λ x. x.id =? srv.id) list
        ≡ true)
      × ((v.store.ensure_assignment device.id srv.id device.public_key s₁).0 ≡ ok a)
      × (cfg ≡ build_config a srv ent)

  pushed-config :
      (srv : Server) (ent : Entitlement) (a : PeerAssignment) (s : S) (cfg : TunnelConfig)
      → (push_unless_applied v srv ent a s).0 ≡ ok cfg
      → cfg ≡ build_config a srv ent
  pushed-config srv ent a s cfg h = elim (Bool-cases (applied a)) [
    | inl done ↦ ground arith
    | inr due ↦ elim (Result-cases (v.edge.apply_peer srv (peer_of a) s).0) [
      | inl (_, e) ↦ ground arith
      | inr (x, e) ↦ absurd (ground arith)
    ]
  ]

  provision_on-config :
      (device : Device) (srv : Server) (ent : Entitlement) (s : S) (cfg : TunnelConfig)
      → (provision_on v device srv ent s).0 ≡ ok cfg
      → (a : PeerAssignment) × ((v.store.ensure_assignment device.id srv.id device.public_key s).0
          ≡ ok a)
        × (cfg ≡ build_config a srv ent)
  unfolding provision_on
  provision_on-config device srv ent s cfg h =
      elim (Result-cases (v.store.ensure_assignment device.id srv.id device.public_key s).0) [
        | inl (a, e) ↦ (
          a,
          e,
          pushed-config srv ent a (v.store.ensure_assignment device.id srv.id device.public_key s).1
              cfg (ground arith),
        )
        | inr (x, e) ↦ absurd (ground arith)
      ]

  try_servers-FromServer :
      (device : Device) (ent : Entitlement) (i : ℕ) (last : Option Error) (list : List Server)
      (s : S) (cfg : TunnelConfig)
      → (try_servers v device ent i last list s).0 ≡ ok cfg
      → FromServer device ent list cfg
  unfolding try_servers
  try_servers-FromServer device ent i last [] s cfg h = absurd (cc)
  try_servers-FromServer device ent i last (srv ∷ rest) s cfg h =
      elim (Bool-cases (leb v.max_inline_attempts i)) [
        | inl done ↦ absurd (ground arith)
        | inr more ↦ elim (Result-cases (provision_on v device srv ent s).0) [
          | inl (c, e) ↦
              let (a, f, g) = provision_on-config device srv ent s c e in
              (srv, a, s, ground arith, f, ground arith)
          | inr (x, e) ↦ elim (Bool-cases (error_is x rejected)) [
            | inl stop ↦ absurd (ground arith)
            | inr next ↦
                let (w, a, s₁, there, f, g) =
                  try_servers-FromServer device ent (suc i) (some x) rest
                    (provision_on v device srv ent s).1 cfg (ground arith) in
                (w, a, s₁, ground arith, f, g)
          ]
        ]
      ]

  -- The states between the reads of `Provision`, in order.
  abbrev pub after_entitlement : Request → S → S
  after_entitlement req s = (v.store.entitlement req.user_id s).1

  abbrev pub after_device : Request → S → S
  after_device req s = (v.store.device_by_id req.device_id (after_entitlement req s)).1

  abbrev pub after_devices : Request → S → S
  after_devices req s = (v.store.devices_by_user req.user_id (after_device req s)).1

  abbrev pub candidates_read : Request → S → Result (List Server)
  candidates_read req s = (candidates v.store req (after_devices req s)).0

  candidates-granted :
      (req : Request) (ent : Entitlement) (device : Device) (s : S) (cfg : TunnelConfig)
      → ((candidates v.store req >>= λ list. try_servers v device ent 0 none list) s).0 ≡ ok cfg
      → (list : List Server) × ((candidates v.store req s).0 ≡ ok list)
        × FromServer device ent list cfg
  candidates-granted req ent device s cfg h = elim (Result-cases (candidates v.store req s).0) [
    | inl (list, e) ↦ (
      list,
      e,
      try_servers-FromServer device ent 0 none list (candidates v.store req s).1 cfg (ground arith),
    )
    | inr (x, e) ↦ absurd (ground arith)
  ]

  limit-granted :
      (req : Request) (ent : Entitlement) (device : Device) (s : S) (cfg : TunnelConfig)
      → ((check_device_limit v req.user_id device.id ent.device_limit >>= λ _.
            candidates v.store req >>= λ list. try_servers v device ent 0 none list)
          s).0
        ≡ ok cfg
      → (devices : List Device) × ((v.store.devices_by_user req.user_id s).0 ≡ ok devices)
        × (is_allowed device.id ent.device_limit devices ≡ true)
        × (((candidates v.store req >>= λ list. try_servers v device ent 0 none list)
              (v.store.devices_by_user req.user_id s).1).0
            ≡ ok cfg)
  limit-granted req ent device s cfg h =
      elim (Result-cases (v.store.devices_by_user req.user_id s).0) [
        | inl (devices, e) ↦ elim (Bool-cases (is_allowed device.id ent.device_limit devices)) [
          | inl fits ↦ (devices, e, fits, ground arith)
          | inr over ↦ absurd (ground arith)
        ]
        | inr (x, e) ↦ absurd (ground arith)
      ]

  device-granted :
      (req : Request) (ent : Entitlement) (s : S) (cfg : TunnelConfig)
      → (provision_entitled v req ent s).0 ≡ ok cfg
      → (device : Device) × ((v.store.device_by_id req.device_id s).0 ≡ ok device)
        × (owns v req device ≡ true)
        × (((check_device_limit v req.user_id device.id ent.device_limit >>= λ _.
                candidates v.store req >>= λ list. try_servers v device ent 0 none list)
              (v.store.device_by_id req.device_id s).1).0
            ≡ ok cfg)
  device-granted req ent s cfg h = elim (Result-cases (v.store.device_by_id req.device_id s).0) [
    | inl (device, e) ↦ elim (Bool-cases (owns v req device)) [
      | inl own ↦ (device, e, own, ground arith)
      | inr other ↦ absurd (ground arith)
    ]
    | inr (x, e) ↦ absurd (ground arith)
  ]

  -- A tunnel is handed out only to a user with a live block, for a device of theirs that is not
  -- revoked and within the plan's limit; it is the configuration of an assignment of that device's
  -- key on one of the candidate servers. Any store and any edge, failing ones included.
  pub provision-granted :
      (req : Request) (s : S) (cfg : TunnelConfig)
      → (provision v req s).0 ≡ ok cfg
      → (ent : Entitlement) × (device : Device) × (devices : List Device) × (list : List Server)
        × ((v.store.entitlement req.user_id s).0 ≡ ok ent)
        × (ent.active ≡ true)
        × ((v.store.device_by_id req.device_id (after_entitlement req s)).0 ≡ ok device)
        × (device.user_id ≡ req.user_id)
        × (device.revoked_at ≡ none)
        × ((v.store.devices_by_user req.user_id (after_device req s)).0 ≡ ok devices)
        × (is_allowed device.id ent.device_limit devices ≡ true)
        × (candidates_read req s ≡ ok list)
        × FromServer device ent list cfg
  unfolding provision
  provision-granted req s cfg h = elim (Result-cases (v.store.entitlement req.user_id s).0) [
    | inl (ent, e) ↦ elim (Bool-cases ent.active) [
      | inl on ↦
          let (device, f, own, k) =
            device-granted req ent (after_entitlement req s) cfg (ground arith) in
          let (devices, g, fits, k') = limit-granted req ent device (after_device req s) cfg k in
          let (list, i, from) = candidates-granted req ent device (after_devices req s) cfg k' in
          (ent, device, devices, list, e, on, f, ground arith, ground arith, g, fits, i, from)
      | inr off ↦ absurd (ground arith)
    ]
    | inr (x, e) ↦ absurd (ground arith)
  ]
