-- ===== src/Tests/Migration.antt =====
-- Tests and examples of the migrations and of the store that `main` opens.
use mathlib.Core.List.{Permᴰ}
use muninn.Migration.Order.{load_migrations-perm}
use muninn.Prelude.{◌≡◌, refl, none, some, List, [], ◌∷◌, map, ap, ◌==◌, if◌then◌else◌}
use muninn.Text.{Text, codes, trim_space}
use muninn.Text.Split.{split2}
use muninn.Exec.{ok}
use muninn.Action.{Reply, done, ◌>>=◌, continue, pure, reject_if, require, check, get, modify, wrap}
use muninn.Memory.Calls.{Call}
use muninn.Migration.{
  Migration, Files, load_migrations, load_each, sort_names, insert_name, parse_migration_file,
  trim_suffix,
}
use muninn.Migration.Run.{
  Schema, Session, new_schema, version_row, run_migrations, run_each, apply_migration,
  create_unless, new_db, driver_map,
}
use muninn.Migration.Applied.{schema}
use muninn.Migration.Applied.Again.{run_migrations_again}
use muninn.Migration.Applied.Complete.{run_migrations_succeeds}
use muninn.Database.Calls.{step}
use muninn.Server.{Environment, database, chosen_backend}
use muninn.Server.Opened.{opened_postgres_keeps_chunks, chosen_backend-IsKnown}
use muninn.Tests.{outside}
use muninn.Tests.Database.{server, sample_database}

abbrev files : Files
files = record {
  read_dir =
      ok (codes "003_add_persist.sql" ∷ codes "readme" ∷ codes "001_initial_schema.sql" ∷ []);
  read_file = λ name. ok (codes " run it ");
}

abbrev first_migration : Migration
first_migration = record {
  id = codes "001";
  author = codes "muninn";
  description = codes "initial schema";
  sqlite = codes "run it";
  postgres = codes "run it";
}

abbrev pub migrations : List Migration
migrations =
    first_migration
    ∷ record first_migration { id = codes "003"; description = codes "add persist" }
    ∷ []

-- The files are sorted, and the one without an id is skipped.
loaded : load_migrations files ≡ ok migrations
unfolding load_migrations load_each sort_names insert_name parse_migration_file trim_suffix split2
    trim_space
loaded = refl

abbrev session : Session
session = record {
  outside = outside 100;
  fails = λ i. none;
  open_error = λ driver dsn. none;
  ping_error = none;
  sha256 = λ s. 0 ∷ 17 ∷ 34 ∷ 51 ∷ 68 ∷ 85 ∷ 102 ∷ 255 ∷ 9 ∷ [];
}

-- The record of the second migration fails.
abbrev failing : Session
failing = record session { fails = λ i. if i == 6 then some (codes "lost") else none }

run_migrations_succeeds_example : run_migrations session migrations (codes "pgx") new_schema ≡ (
  done tt,
  schema (map (version_row session) migrations) (codes "run it" ∷ codes "run it" ∷ []),
)
run_migrations_succeeds_example =
    run_migrations_succeeds session migrations (codes "pgx") new_schema (λ i. refl) refl
      ((refl, tt), (tt, tt))

run_succeeds : (run_migrations session migrations (codes "sqlite") new_schema).0 ≡ done tt
run_succeeds =
    ap (λ (r : Reply (Unit {0}) × Schema). r.0)
      (run_migrations_succeeds session migrations (codes "sqlite") new_schema (λ i. refl) refl
        ((refl, tt), (tt, tt)))

run_migrations_again_example :
    run_migrations session migrations
      (codes "sqlite")
      (run_migrations session migrations (codes "sqlite") new_schema).1
    ≡ (done tt, (run_migrations session migrations (codes "sqlite") new_schema).1)
run_migrations_again_example =
    run_migrations_again session session migrations (codes "sqlite") new_schema (refl, refl, refl)
      (refl, refl, refl) refl run_succeeds

opened : (new_db session migrations (codes "postgres") [] new_schema).0 ≡ done (codes "postgres")
unfolding new_db run_migrations run_each apply_migration create_unless ◌>>=◌ continue pure reject_if
    require check get modify wrap
opened = refl

opened_postgres_keeps_chunks_example :
    (step (server 200) (codes "postgres") Call.delete_expired_chunks sample_database).chunks
    ≡ sample_database.chunks
opened_postgres_keeps_chunks_example =
    opened_postgres_keeps_chunks session migrations [] new_schema (codes "postgres") opened
      (server 200) Call.delete_expired_chunks sample_database refl

-- A misspelt driver.
abbrev environment : Environment
environment = record { variable = λ name. codes "Postgres"; parse_duration = λ s. none }

chosen : chosen_backend environment ≡ database (codes "sqlite") (codes "Postgres")
unfolding chosen_backend
chosen = refl

known_driver_chosen : (sql_driver : Text) × (driver_map (codes "sqlite") ≡ some sql_driver)
known_driver_chosen = chosen_backend-IsKnown environment (codes "sqlite") (codes "Postgres") chosen

load_migrations-perm_example :
    load_migrations (record files { read_dir = ok (codes "003_b.sql" ∷ codes "001_a.sql" ∷ []) })
    ≡ load_migrations (record files { read_dir = ok (codes "001_a.sql" ∷ codes "003_b.sql" ∷ []) })
load_migrations-perm_example =
    load_migrations-perm files (codes "003_b.sql" ∷ codes "001_a.sql" ∷ [])
      (codes "001_a.sql" ∷ codes "003_b.sql" ∷ []) (Permᴰ.swap refl refl)
