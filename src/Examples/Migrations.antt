-- ===== src/Examples/Migrations.antt =====
-- The theorem of `Migrate` at concrete files.
use mathlib.Core.List.{Perm}
use proxify_vpn.Base.{List, String, String_discrete, [], false, refl, ◌∷◌, ◌≡◌}
use proxify_vpn.Base.Sorting.{IsOrdered}
use proxify_vpn.Base.Text.{text_before}
use proxify_vpn.Errors.{Result, ok}
use proxify_vpn.Migrate.{DirEntry, Migrated, Steps, migrate, names_of}
use proxify_vpn.Migrate.Once.{IsQuiet, RunsTo, files_left, migrate-once, recorded}

abbrev two_files : List DirEntry
two_files =
    record { name = "0002_b.sql"; is_dir = false }
    ∷ record { name = "notes.txt"; is_dir = false }
    ∷ record { name = "0001_a.sql"; is_dir = false }
    ∷ []

-- The schema is the record of what was run.
abbrev noted_run : String → List String → Result (List String)
noted_run body schema = ok (body ∷ schema)

abbrev blank_db : Migrated (List String)
blank_db = record { schema = []; versions = [] }

abbrev full_db : Migrated (List String)
full_db = record {
  schema = "0002_b.sql" ∷ "0001_a.sql" ∷ [];
  versions = "0002_b.sql" ∷ "0001_a.sql" ∷ [];
}

-- A database that takes every statement.
abbrev taking : Steps (List String)
taking = record {
  read_file = ok;
  select = λ _ _. ok tt;
  begin = λ _. ok tt;
  exec = noted_run;
  insert = λ _ _. ok tt;
  commit = λ _. ok tt;
}

migrate-once_example :
    (files : List String) × Perm files (names_of two_files)
    × IsOrdered text_before files
    × RunsTo taking (files_left files []) [] full_db.schema
    × (full_db.versions ≡ recorded (files_left files []) [])
    × IsQuiet taking full_db (migrate taking two_files full_db)
unfolding migrate String_discrete text_before
migrate-once_example = migrate-once taking two_files blank_db full_db refl

-- The files are run in the order of their names, not in that of the directory.
order_test : (migrate taking two_files blank_db).1.schema ≡ full_db.schema
unfolding migrate String_discrete text_before
order_test = refl
