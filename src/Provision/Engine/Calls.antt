-- ===== src/Provision/Engine/Calls.antt =====
-- How much of the edge a request costs.
use proxify_vpn.Base.{
  Bool, Bool-cases, List, Option, String, [], arith, false, if◌then◌else◌, inl, inr, leb, none,
  some, suc, true, ℕ, ◌+◌, ◌-◌, ◌<◌, ◌∷◌, ◌≡◌, ◌≤◌,
}
use proxify_vpn.Base.Effects.{Call, attempt, fail, on_ok, prefixed, rename_error, succeed, ◌>>=◌}
use proxify_vpn.Edge.{Peer}
use proxify_vpn.Errors.{Error, Result, Result-cases, err, error_is, ok, rejected}
use proxify_vpn.Model.{Device, Entitlement, PeerAssignment, Server, applied}
use proxify_vpn.Provision.Config.{build_config}
use proxify_vpn.Provision.Engine.{
  after_push, check_device_limit, peer_of, provision, provision_entitled, provision_on,
  push_unless_applied, retry_at, try_servers,
}
use proxify_vpn.Provision.Selector.{Request, candidates, put_first, wanted_code}
use proxify_vpn.Provision.Storer.{Service}

module _ {S : Type 0} (v : Service S) where
  -- `calls` counts the pushes to an edge: the store makes none, and a push is one.
  pub record Counts (calls : S → ℕ) : Type 0 where
    pub entitlement : (u : String) (s : S) → calls (v.store.entitlement u s).1 ≡ calls s
    pub device_by_id : (d : String) (s : S) → calls (v.store.device_by_id d s).1 ≡ calls s
    pub devices_by_user : (u : String) (s : S) → calls (v.store.devices_by_user u s).1 ≡ calls s
    pub servers : (b : Bool) (s : S) → calls (v.store.servers b s).1 ≡ calls s
    pub server_by_code : (c : String) (s : S) → calls (v.store.server_by_code c s).1 ≡ calls s
    pub ensure_assignment :
        (d k key : String) (s : S) → calls (v.store.ensure_assignment d k key s).1 ≡ calls s
    pub mark_applied : (a : String) (r : ℕ) (s : S) → calls (v.store.mark_applied a r s).1 ≡ calls s
    pub mark_attempt_failed :
        (a c : String) (t : ℕ) (s : S) → calls (v.store.mark_attempt_failed a c t s).1 ≡ calls s
    pub begin_revoke_other_servers :
        (d k : String) (s : S) → calls (v.store.begin_revoke_other_servers d k s).1 ≡ calls s
    pub apply_peer :
        (srv : Server) (p : Peer) (s : S) → calls (v.edge.apply_peer srv p s).1 ≤ calls s + 1

  module _ (calls : S → ℕ) (count : Counts calls) where
    pushed-calls :
        (srv : Server) (ent : Entitlement) (a : PeerAssignment) (s : S)
        → calls (push_unless_applied v srv ent a s).1 ≤ calls s + 1
    pushed-calls srv ent a s = elim (Bool-cases (applied a)) [
      | inl done ↦ rw done (omega arith)
      | inr due ↦ rw due (after (v.edge.apply_peer srv (peer_of a) s).0)
    ]
      where
        s' : S
        s' = (v.edge.apply_peer srv (peer_of a) s).1

        after :
            (r : Result (Unit {0}))
            → calls (after_push v a (build_config a srv ent) r s').1 ≤ calls s + 1
        after (ok u) =
            omega (arith, count.mark_applied a.id a.revision s', count.apply_peer srv (peer_of a) s)
        after (err e) = omega (
          arith,
          count.mark_attempt_failed a.id (v.describe e) (retry_at v a.attempts s') s',
          count.apply_peer srv (peer_of a) s,
        )

    provision_on-calls :
        (device : Device) (srv : Server) (ent : Entitlement) (s : S)
        → calls (provision_on v device srv ent s).1 ≤ calls s + 1
    unfolding provision_on
    provision_on-calls device srv ent s =
        after (v.store.ensure_assignment device.id srv.id device.public_key s).0
      where
        s' : S
        s' = (v.store.ensure_assignment device.id srv.id device.public_key s).1

        same : calls s' ≡ calls s
        same = count.ensure_assignment device.id srv.id device.public_key s

        after :
            (r : Result PeerAssignment)
            → calls
                (on_ok (push_unless_applied v srv ent) (rename_error "ensure assignment" r) s').1
              ≤ calls s + 1
        after (ok a) = omega (arith, same, pushed-calls srv ent a s')
        after (err e) = omega (arith, same)

    try_servers-calls :
        (device : Device) (ent : Entitlement) (i : ℕ) (last : Option Error) (list : List Server)
        (s : S)
        → calls (try_servers v device ent i last list s).1 ≤ calls s + (v.max_inline_attempts - i)
    unfolding try_servers
    try_servers-calls device ent i last [] s = omega arith
    try_servers-calls device ent i last (srv ∷ rest) s =
        elim (Bool-cases (leb v.max_inline_attempts i)) [
          | inl done ↦ rw (done, try_servers) (omega arith)
          | inr more ↦ elim (Result-cases (provision_on v device srv ent s).0) [
            | inl (cfg, e) ↦
                rw (more, e, try_servers)
                  (omega
                    (arith, count.begin_revoke_other_servers device.id srv.id s', once, room more))
            | inr (x, e) ↦ elim (Bool-cases (error_is x rejected)) [
              | inl stop ↦ rw (more, e, stop, try_servers) (omega (arith, once, room more))
              | inr next ↦
                  rw (more, e, next, try_servers)
                    (omega (
                      arith,
                      once,
                      room more,
                      try_servers-calls device ent (suc i) (some x) rest s',
                    ))
            ]
          ]
        ]
      where
        s' : S
        s' = (provision_on v device srv ent s).1

        once : calls s' ≤ calls s + 1
        once = provision_on-calls device srv ent s

        room : leb v.max_inline_attempts i ≡ false → i < v.max_inline_attempts
        room more = ground arith

    -- The call makes at most `n` pushes.
    unfoldable pub Costs : {A : Type 0} → ℕ → Call S A → Type 0
    Costs n m = (s : S) → calls (m s).1 ≤ calls s + n

    free :
        {A : Type 0} (prefix : String) (m : Call S A)
        → ((s : S) → calls (m s).1 ≡ calls s)
        → Costs 0 (prefixed prefix m)
    unfolding Costs
    free prefix m same s = omega (arith, same s)

    failed : (A : Type 0) (n : ℕ) (e : Error) → Costs {A = A} n (fail e)
    unfolding Costs
    failed A n e s = omega arith

    done : {A : Type 0} (n : ℕ) (a : A) → Costs n (succeed a)
    unfolding Costs
    done n a s = omega arith

    free_then :
        {A B : Type 0} (n : ℕ) (m : Call S A) (k : A → Call S B)
        → Costs 0 m
        → ((a : A) → Costs n (k a))
        → Costs n (m >>= k)
    unfolding Costs
    free_then {A = A} n m k cheap rest s = after (m s).0
      where
        after : (r : Result A) → calls (on_ok k r (m s).1).1 ≤ calls s + n
        after (ok a) = omega (arith, cheap s, rest a (m s).1)
        after (err e) = omega (arith, cheap s)

    branch :
        {A : Type 0} (n : ℕ) (b : Bool) (m k : Call S A)
        → Costs n m
        → Costs n k
        → Costs n (if b then m else k)
    branch n true m k f g = f
    branch n false m k f g = g

    put_first-cost :
        (req : Request) (in_use : List Server) (r : Result Server)
        → Costs 0 (put_first v.store req in_use r)
    put_first-cost req in_use (err e) = failed _ 0 _
    put_first-cost req in_use (ok chosen) = branch 0 _ _ _ (failed _ 0 _) (done 0 _)

    servers-cost : Costs 0 (v.store.servers true)
    unfolding Costs
    servers-cost s = omega (arith, count.servers true s)

    named-cost :
        (req : Request) (in_use : List Server)
        → Costs 0 (
            attempt
              (v.store.server_by_code (wanted_code v.store req))
              (put_first v.store req in_use))
    unfolding Costs
    named-cost req in_use s = omega (
      arith,
      count.server_by_code (wanted_code v.store req) s,
      put_first-cost req in_use (v.store.server_by_code (wanted_code v.store req) s).0
          (v.store.server_by_code (wanted_code v.store req) s).1,
    )

    candidates-cost : (req : Request) → Costs 0 (candidates v.store req)
    unfolding candidates
    candidates-cost req = free_then 0 (v.store.servers true) _ servers-cost (λ in_use.
        branch 0 _ _ _ (named-cost req in_use) (branch 0 _ _ _ (failed _ 0 _) (done 0 _)))

    limit-cost :
        (user_id device_id : String) (limit : ℕ)
        → Costs 0 (check_device_limit v user_id device_id limit)
    limit-cost user_id device_id limit =
        free_then {A = List Device} 0 (prefixed "devices" (v.store.devices_by_user user_id)) _
          (free "devices" (v.store.devices_by_user user_id) (count.devices_by_user user_id))
          (λ devices. branch 0 _ _ _ (done 0 _) (failed _ 0 _))

    loop-cost :
        (device : Device) (ent : Entitlement) (list : List Server)
        → Costs v.max_inline_attempts (try_servers v device ent 0 none list)
    unfolding Costs
    loop-cost device ent list s = omega (arith, try_servers-calls device ent 0 none list s)

    entitled-cost :
        (req : Request) (ent : Entitlement)
        → Costs v.max_inline_attempts (provision_entitled v req ent)
    entitled-cost req ent =
        free_then {A = Device} _ (prefixed "device" (v.store.device_by_id req.device_id)) _
          (free "device" (v.store.device_by_id req.device_id) (count.device_by_id req.device_id))
          (λ device. branch _ _ _ _ (failed _ _ _) (
            free_then _ _ _ (limit-cost req.user_id device.id ent.device_limit)
              (λ _. free_then _ _ _ (candidates-cost req) (loop-cost device ent))))

    provision-cost : (req : Request) → Costs v.max_inline_attempts (provision v req)
    unfolding provision
    provision-cost req =
        free_then {A = Entitlement} _ (prefixed "entitlement" (v.store.entitlement req.user_id)) _
          (free "entitlement" (v.store.entitlement req.user_id) (count.entitlement req.user_id))
          (λ ent. branch _ _ _ _ (failed _ _ _) (entitled-cost req ent))

    -- A request costs at most `max_inline_attempts` pushes to an edge: the rest is left to the
    -- reconciler, since a person waits for the answer.
    pub provision-calls :
        (req : Request) (s : S) → calls (provision v req s).1 ≤ calls s + v.max_inline_attempts
    unfolding Costs
    provision-calls req s = provision-cost req s
