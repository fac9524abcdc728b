-- ===== src/Migrate/Once.antt =====
-- What `migrate` has done once it succeeds.
use mathlib.Core.List.{Perm}
use proxify_vpn.Base.{
  All, Bool-cases, List, String, [], ap, arith, if◌then◌else◌, inl, inr, refl, subst, sym, true,
  ◌=?◌, ◌∙◌, ◌∷◌, ◌≡◌, ◌⊎◌,
}
use proxify_vpn.Base.Effects.{on_ok}
use proxify_vpn.Base.Rows.{exists_row}
use proxify_vpn.Base.Sorting.{IsOrdered, IsOrdered-sort_by, sort_by-perm}
use proxify_vpn.Base.Text.{text_before, text_before-asym}
use proxify_vpn.Errors.{Error, Result, Result-cases, err, ok}
use proxify_vpn.Migrate.{
  DirEntry, Migrated, Steps, apply_files, is_applied, migrate, names_of, run_body, sql_files,
}
use proxify_vpn.World.{done}

-- The files that are not among the versions, in order, each once.
unfoldable pub files_left : List String → List String → List String
files_left [] versions = []
files_left (file ∷ files) versions =
    let known = files_left files versions in
    let new = files_left files (file ∷ versions) in
    if exists_row (λ v. v =? file) versions then known else file ∷ new

-- The versions after the files, one put before the other.
abbrev pub recorded : List String → List String → List String
recorded [] versions = versions
recorded (file ∷ files) versions = recorded files (file ∷ versions)

recorded-kept :
    (file : String) (files versions : List String)
    → exists_row (λ v. v =? file) versions ≡ true
    → exists_row (λ v. v =? file) (recorded files versions) ≡ true
recorded-kept file [] versions h = h
recorded-kept file (g ∷ files) versions h = recorded-kept file files (g ∷ versions) (ground arith)

module _ {S : Type 0} (steps : Steps S) where
  -- The files that were run in this order from a schema led to another.
  abbrev pub RunsTo : List String → S → S → Type 0
  RunsTo [] a b = a ≡ b
  RunsTo (file ∷ files) a b =
      (body : String) × (mid : S) × (steps.read_file file ≡ ok body)
      × (steps.exec body a ≡ ok mid)
      × RunsTo files mid b

  -- What a success has done: the files that were left are run, and every file is recorded.
  abbrev IsDone : List String → Migrated S → Migrated S → Type 0
  IsDone files d d' =
      RunsTo (files_left files d.versions) d.schema d'.schema
      × (d'.versions ≡ recorded (files_left files d.versions) d.versions)
      × All (λ f. is_applied steps f d' ≡ true) files

  still_there :
      (file : String) (files : List String) (d d' : Migrated S)
      → is_applied steps file d ≡ true
      → d'.versions ≡ recorded files d.versions
      → is_applied steps file d' ≡ true
  still_there file files d d' h e =
      ap (exists_row (λ v. v =? file)) e ∙ recorded-kept file files d.versions h

  -- A round that succeeds on a file that is not recorded has read it, run it and recorded it.
  run_body-ran :
      (file : String) (r : Result String) (d d₁ : Migrated S)
      → run_body steps file r d ≡ (ok tt, d₁)
      → (body : String) × (mid : S) × (r ≡ ok body)
        × (steps.exec body d.schema ≡ ok mid)
        × (d₁ ≡ record { schema = mid; versions = file ∷ d.versions })
  run_body-ran file (err e) d d₁ h = absurd cc
  run_body-ran file (ok body) d d₁ h = elim (Result-cases (steps.begin d)) [
    | inr (e, closed_off) ↦ absurd (ground arith)
    | inl (u, begun) ↦ elim (Result-cases (steps.exec body d.schema)) [
      | inr (e, broken) ↦ absurd (ground arith)
      | inl (mid, ran) ↦ elim (Result-cases (steps.insert file mid)) [
        | inr (e, refused) ↦ absurd (ground arith)
        | inl (v, inserted) ↦
            elim (Result-cases
              (steps.commit (record { schema = mid; versions = file ∷ d.versions }))) [
                | inr (e, lost) ↦ absurd (ground arith)
                | inl (w, closing) ↦ (body, mid, refl, ran, ground arith)
              ]
      ]
    ]
  ]

  -- A round that ran a file, and the rounds after it.
  ran_first :
      (file : String) (files : List String) (d d' : Migrated S) (o : Result (Unit {0}) × Migrated S)
      → run_body steps file (steps.read_file file) d ≡ o
      → on_ok (λ _. apply_files steps files) o.0 o.1 ≡ (ok tt, d')
      → ((x : Migrated S) → apply_files steps files x ≡ (ok tt, d') → IsDone files x d')
      → RunsTo (file ∷ files_left files (file ∷ d.versions)) d.schema d'.schema
        × (d'.versions ≡ recorded (file ∷ files_left files (file ∷ d.versions)) d.versions)
        × All (λ f. is_applied steps f d' ≡ true) (file ∷ files)
  ran_first file files d d' (err e, d₁) ran k rest = absurd cc
  ran_first file files d d' (ok u, d₁) ran k rest =
      let (body, mid, read, done, same) = run_body-ran file (steps.read_file file) d d₁ ran in
      let d₂ : Migrated S = record { schema = mid; versions = file ∷ d.versions } in
      let (runs, versions, all) =
        rest d₂ (subst (λ x. apply_files steps files x ≡ (ok tt, d')) same k) in
      (
        (body, mid, read, done, runs),
        versions,
        (
          still_there file (files_left files (file ∷ d.versions)) d₂ d' (ground arith) versions,
          all,
        ),
      )

  apply_files-IsDone :
      (files : List String) (d d' : Migrated S)
      → apply_files steps files d ≡ (ok tt, d')
      → IsDone files d d'
  unfolding apply_files files_left
  apply_files-IsDone [] d d' h =
      let same = ap (λ x. x.1) h in (ap (λ x. x.schema) same, sym (ap (λ x. x.versions) same), tt)
  apply_files-IsDone (file ∷ files) d d' h = elim (Result-cases (steps.select file d)) [
    | inr (e, unseen) ↦ absurd (ground arith)
    | inl (u, seen) ↦ elim (Bool-cases (is_applied steps file d)) [
      | inl there ↦
          let (runs, versions, all) = apply_files-IsDone files d d' (rw (seen, there) at h) in
          rw there (
            runs,
            versions,
            (still_there file (files_left files d.versions) d d' there versions, all),
          )
      | inr new ↦ rw new (
          ran_first file files d d' (run_body steps file (steps.read_file file) d) refl
            (rw (seen, new) at h) (λ x k. apply_files-IsDone files x d' k))
    ]
  ]

  -- A run that changes nothing: it succeeds, or a look-up of a file fails.
  abbrev pub IsQuiet : Migrated S → Result (Unit {0}) × Migrated S → Type 0
  IsQuiet d o =
      (o ≡ (ok tt, d))
      ⊎ ((file : String) × (e : Error) × (steps.select file d ≡ err e) × (o ≡ (err e, d)))

  apply_files-IsQuiet :
      (files : List String) (d : Migrated S)
      → All (λ f. is_applied steps f d ≡ true) files
      → IsQuiet d (apply_files steps files d)
  unfolding apply_files
  apply_files-IsQuiet [] d h = inl refl
  apply_files-IsQuiet (file ∷ files) d h = elim (Result-cases (steps.select file d)) [
    | inr (e, unseen) ↦ inr (file, e, unseen, rw unseen refl)
    | inl (u, seen) ↦ rw (seen, h.0) (apply_files-IsQuiet files d h.1)
  ]

  -- A run that succeeds has taken the SQL files, which are the same names in the order of their code
  -- points, has run those that were not recorded in that order and each once, and has recorded them.
  -- Run again, it changes nothing: it succeeds, or the look-up of a file fails.
  pub migrate-once :
      (entries : List DirEntry) (d d' : Migrated S)
      → migrate steps entries d ≡ (ok tt, d')
      → (files : List String) × Perm files (names_of entries)
        × IsOrdered text_before files
        × RunsTo (files_left files d.versions) d.schema d'.schema
        × (d'.versions ≡ recorded (files_left files d.versions) d.versions)
        × IsQuiet d' (migrate steps entries d')
  unfolding migrate sql_files
  migrate-once entries d d' h =
      let (runs, versions, all) = apply_files-IsDone (sql_files entries) d d' h in
      (
        sql_files entries,
        sort_by-perm text_before (names_of entries),
        IsOrdered-sort_by text_before text_before-asym (names_of entries),
        runs,
        versions,
        apply_files-IsQuiet (sql_files entries) d' all,
      )
