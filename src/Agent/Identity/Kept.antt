-- ===== src/Agent/Identity/Kept.antt =====
-- The installation's id outlives restarts.
use proxify_vpn.Agent.Identity.{Disk, draw_id, load_or_create_instance_id, stored_id, write_id}
use proxify_vpn.Base.{
  Bool-cases, String, ap, arith, false, inl, inr, refl, some, subst, suc, sym, true, ℕ, ◌=?◌, ◌∙◌,
  ◌≡◌, ◌≢◌, ◌⊎◌,
}
use proxify_vpn.Base.Text.{trim_space, ◌<>◌}
use proxify_vpn.Errors.{Result, err, ok}
use proxify_vpn.Migrate.{closed}

-- What `hex.EncodeToString` gives: a text that is not empty and has no white space at its ends.
abbrev pub IsPlain : Result String → Type 0
IsPlain (ok id) = (id ≢ "") × (trim_space (id <> "\n") ≡ id)
IsPlain (err e) = Unit

not_blank : (s : String) → s ≢ "" → (s =? "") ≡ false
not_blank s h = ground arith

written-kept :
    (d : Disk) (r : Result String) (id : String) (d' : Disk)
    → IsPlain r
    → d.directory_ok ≡ true
    → write_id d r ≡ (ok id, d')
    → load_or_create_instance_id d' ≡ (ok id, d')
unfolding load_or_create_instance_id
written-kept d (err e) id d' plain there h = absurd (cc)
written-kept d (ok new) id d' (named, trimmed) there h = elim (Bool-cases d.writable) [
  | inr closed ↦ absurd (ground arith)
  | inl open_disk ↦
      let same : new ≡ id = ground arith in
      let disk : record d { instance_file = some (new <> "\n") } ≡ d' = ground arith in
      subst (λ x. load_or_create_instance_id x ≡ (ok id, x)) disk
        (subst
          (λ x.
            load_or_create_instance_id (record d { instance_file = some (new <> "\n") })
            ≡ (ok x, record d { instance_file = some (new <> "\n") }))
          same (rw (there, trimmed, not_blank new named) refl))
]

stored-kept :
    (d : Disk)
    → d.directory_ok ≡ true
    → (stored_id d.instance_file =? "") ≡ false
    → load_or_create_instance_id d ≡ (ok (stored_id d.instance_file), d)
unfolding load_or_create_instance_id
stored-kept d there given = rw (there, given) refl

loaded-drawn :
    (d : Disk)
    → d.directory_ok ≡ true
    → (stored_id d.instance_file =? "") ≡ true
    → load_or_create_instance_id d ≡ draw_id d
unfolding load_or_create_instance_id
loaded-drawn d there fresh = rw (there, fresh) refl

written-same :
    (d : Disk) (r : Result String) (id : String) (d' : Disk)
    → write_id d r ≡ (ok id, d')
    → r ≡ ok id
written-same d (err e) id d' h = absurd cc
written-same d (ok new) id d' h = ground arith

loaded-there :
    (d : Disk) (id : String) (d' : Disk)
    → load_or_create_instance_id d ≡ (ok id, d')
    → d.directory_ok ≡ true
unfolding load_or_create_instance_id
loaded-there d id d' h = elim (Bool-cases d.directory_ok) [
  | inr closed ↦ absurd (ground arith)
  | inl there ↦ there
]

-- The id that the agent starts with is the one on the disk, which is then left alone, or the next draw
-- when the disk has none. Every later start finds that id and leaves the disk as it is.
-- So a restarted box keeps its id, and a rebuilt one, whose disk has none, takes a new draw.
pub load_or_create_instance_id-kept :
    (d : Disk) (id : String) (d' : Disk)
    → ((n : ℕ) → IsPlain (d.draws n))
    → load_or_create_instance_id d ≡ (ok id, d')
    → (load_or_create_instance_id d' ≡ (ok id, d'))
      × (((stored_id d.instance_file ≡ id) × (id ≢ "") × (d' ≡ d))
          ⊎ ((stored_id d.instance_file ≡ "") × (d.draws d.drawn ≡ ok id)))
load_or_create_instance_id-kept d id d' plain h =
    let there : d.directory_ok ≡ true = loaded-there d id d' h in
    elim (Bool-cases (stored_id d.instance_file =? "")) [
      | inl fresh ↦
          let e = sym (loaded-drawn d there fresh) ∙ h in
          let d₁ : Disk = record d { drawn = suc d.drawn } in
          (
            written-kept d₁ (d.draws d.drawn) id d' (plain d.drawn) there e,
            inr (ground arith, written-same d₁ (d.draws d.drawn) id d' e),
          )
      | inr given ↦
          let e = sym (stored-kept d there given) ∙ h in
          let same : d ≡ d' = ap (λ x. x.1) e in
          let stored : stored_id d.instance_file ≡ id = ground arith in
          (
            subst (λ x. load_or_create_instance_id x ≡ (ok id, d')) same h,
            inl (stored, subst (λ k. k ≢ "") stored (λ blank. ground arith), sym same),
          )
    ]
