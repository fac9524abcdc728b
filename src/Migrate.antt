-- ===== src/Migrate.antt =====
-- server/cmd/migrate/main.go: the SQL files that were not run yet are run, in the order of their names,
-- each in a transaction with its row of schema_migrations. What a file does to the schema, and the
-- reading of the embedded files, are arguments.
pub mod Once
use proxify_vpn.Base.{Bool, List, String, [], if◌then◌else◌, not, ◌&&◌, ◌=?◌, ◌||◌, ◌∷◌}
use proxify_vpn.Base.Effects.{Call, succeed, ◌>>=◌}
use proxify_vpn.Base.Rows.{exists_row}
use proxify_vpn.Base.Sorting.{sort_by}
use proxify_vpn.Base.Text.{text_before, ◌<>◌}
use proxify_vpn.Errors.{Result, err, ok, wrapped}

-- An entry of the embedded directory.
pub record DirEntry : Type 0 where
  pub name : String
  pub is_dir : Bool

-- The database: the schema with the data, and the rows of schema_migrations.
pub record Migrated (S : Type 0) : Type 0 where
  pub schema : S
  pub versions : List String

-- What a run asks of the file system and of the database: reading a file, `SELECT EXISTS`, `Begin`, the
-- file's statements on the schema, the `INSERT` of its version and `Commit`.
pub record Steps (S : Type 0) : Type 0 where
  pub read_file : String → Result String
  pub select : String → Migrated S → Result (Unit {0})
  pub begin : Migrated S → Result (Unit {0})
  pub exec : String → S → Result S
  pub insert : String → S → Result (Unit {0})
  pub commit : Migrated S → Result (Unit {0})

-- `strings.HasSuffix`
unfoldable pub has_suffix : String → String → Bool
has_suffix suffix String.[] = suffix =? ""
has_suffix suffix (String.◌∷◌ c s) =
    let later = has_suffix suffix s in String.◌∷◌ c s =? suffix || later

unfoldable pub names_of : List DirEntry → List String
unfolding has_suffix
names_of [] = []
names_of (e ∷ entries) =
    let rest = names_of entries in
    if not e.is_dir && has_suffix ".sql" e.name then e.name ∷ rest else rest

-- `sort.Strings`: by bytes, which is by code points.
unfoldable pub sql_files : List DirEntry → List String
unfolding names_of
sql_files entries = sort_by text_before (names_of entries)

module _ {S : Type 0} (steps : Steps S) where
  abbrev pub is_applied : String → Migrated S → Bool
  is_applied file d = exists_row (λ v. v =? file) d.versions

  -- `Commit`: when it fails, the transaction is rolled back.
  abbrev pub closed : Migrated S → Result (Unit {0}) → Call (Migrated S) (Unit {0})
  closed d' (err e) d = (err e, d)
  closed d' (ok _) d = (ok tt, d')

  -- The row of schema_migrations: an error of its `INSERT` rolls the transaction back.
  abbrev pub noted_version : String → S → Result (Unit {0}) → Call (Migrated S) (Unit {0})
  noted_version file schema (err e) d = (err e, d)
  noted_version file schema (ok _) d =
      let d' : Migrated S = record { schema = schema; versions = file ∷ d.versions } in
      closed d' (steps.commit d') d

  -- The rest of the transaction after the file's statements: their error rolls it back.
  abbrev pub committed : String → Result S → Call (Migrated S) (Unit {0})
  committed file (err e) d = (err (wrapped ("apply " <> file) e), d)
  committed file (ok schema) d = noted_version file schema (steps.insert file schema) d

  abbrev pub in_transaction : String → String → Result (Unit {0}) → Call (Migrated S) (Unit {0})
  in_transaction file body (err e) d = (err e, d)
  in_transaction file body (ok _) d = committed file (steps.exec body d.schema) d

  abbrev pub run_body : String → Result String → Call (Migrated S) (Unit {0})
  run_body file (err e) d = (err e, d)
  run_body file (ok body) d = in_transaction file body (steps.begin d) d

  abbrev pub apply_selected : String → Result (Unit {0}) → Call (Migrated S) (Unit {0})
  apply_selected file (err e) d = (err e, d)
  apply_selected file (ok _) d =
      if is_applied file d then (ok tt, d) else run_body file (steps.read_file file) d

  -- One round of the loop of `run`.
  abbrev pub apply_file : String → Call (Migrated S) (Unit {0})
  apply_file file d = apply_selected file (steps.select file d) d

  unfoldable pub apply_files : List String → Call (Migrated S) (Unit {0})
  apply_files [] = succeed tt
  apply_files (file ∷ files) = apply_file file >>= λ _. apply_files files

  -- `run`, with the connection and the table schema_migrations given.
  unfoldable pub migrate : List DirEntry → Call (Migrated S) (Unit {0})
  unfolding sql_files apply_files
  migrate entries = apply_files (sql_files entries)
