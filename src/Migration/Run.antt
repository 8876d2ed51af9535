-- ===== src/Migration/Run.antt =====
-- runMigrations in internal/store/migration.go, and NewDB in internal/store/db.go.
use muninn.Prelude.{
  ℕ, suc, ◌+◌, Bool, false, ◌||◌, Option, none, some, List, [], ◌∷◌, ◌++◌, if◌then◌else◌, map,
}
use muninn.Prelude.Int.{ℤ}
use muninn.Text.{Text, codes, text_eq, is_empty}
use muninn.Outside.{Outside, unix_now}
use muninn.Score.{Error, other, wrapped}
use muninn.Action.{Action, pure, ◌>>=◌, ◌>>◌, reject_if, require, check, get, modify, wrap}
use muninn.Database.{failure}
use muninn.Migration.{Migration, checksum}

-- A row of `schema_version`.
pub record VersionRow : Type 0 where
  pub id : Text
  pub author : Text
  pub description : Text
  pub applied_at : ℤ
  pub checksum : Text

-- The table `schema_version`, if there is one, and the scripts that were run to their end, in
-- order. What a script that fails has done before is not part of the state.
pub record Schema : Type 0 where
  pub versions : Option (List VersionRow)
  pub executed : List Text

abbrev pub new_schema : Schema
new_schema = record { versions = none; executed = [] }

-- One run: whether its i-th statement fails, by the text of the error, whether the database can be
-- opened and answers, and SHA-256.
pub record Session : Type 0 where
  pub outside : Outside
  pub fails : ℕ → Option Text
  pub open_error : Text → Text → Option Text
  pub ping_error : Option Text
  pub sha256 : Text → List ℕ

abbrev pub schema_version_table : Text → Text
schema_version_table driver =
    if text_eq driver (codes "sqlite")
    then codes
        "CREATE TABLE IF NOT EXISTS schema_version (\n\t\t\tid TEXT PRIMARY KEY,\n\t\t\tauthor TEXT NOT NULL,\n\t\t\tdescription TEXT NOT NULL DEFAULT '',\n\t\t\tapplied_at INTEGER NOT NULL,\n\t\t\tchecksum TEXT NOT NULL DEFAULT ''\n\t\t)"
    else if text_eq driver (codes "pgx")
    then codes
        "CREATE TABLE IF NOT EXISTS schema_version (\n\t\t\tid TEXT PRIMARY KEY,\n\t\t\tauthor TEXT NOT NULL,\n\t\t\tdescription TEXT NOT NULL DEFAULT '',\n\t\t\tapplied_at BIGINT NOT NULL,\n\t\t\tchecksum TEXT NOT NULL DEFAULT ''\n\t\t)"
    else []

abbrev pub version_id : VersionRow → Text
version_id v = v.id

-- `SELECT id FROM schema_version`; `none` is an error.
abbrev pub select_ids : Option Text → Option (List VersionRow) → Option (List Text)
select_ids none (some rows) = some (map version_id rows)
select_ids none none = none
select_ids (some msg) versions = none

-- `CREATE TABLE IF NOT EXISTS`
abbrev pub created : Option (List VersionRow) → Option (List VersionRow)
created none = some []
created (some rows) = some rows

-- The table is created where the first SELECT fails.
unfoldable pub create_unless : Session → Option (List Text) → Action Schema (Unit {0})
create_unless w none = do
  check (failure (codes "create schema_version: ") (w.fails 1))
  modify (λ s. record s { versions = created s.versions })
create_unless w (some ids) = pure tt

-- The ids of the first SELECT or else of the second, whose error is passed over.
abbrev pub applied_ids : Option (List Text) → Option (List Text) → List Text
applied_ids (some ids) second = ids
applied_ids none (some ids) = ids
applied_ids none none = []

abbrev pub mentions : List Text → Text → Bool
mentions [] id = false
mentions (i ∷ ids) id = text_eq i id || mentions ids id

abbrev pub script : Text → Migration → Text
script driver m =
    if text_eq driver (codes "sqlite")
    then m.sqlite
    else if text_eq driver (codes "pgx")
    then m.postgres
    else []

-- The two `continue`s of the loop.
abbrev pub skips : Text → List Text → Migration → Bool
skips driver applied m = mentions applied m.id || is_empty (script driver m)

abbrev pub version_row : Session → Migration → VersionRow
version_row w m = record {
  id = m.id;
  author = m.author;
  description = m.description;
  applied_at = unix_now w.outside;
  checksum = checksum w.sha256 m;
}

-- The id is the primary key.
abbrev pub duplicate_error : Option (List VersionRow) → Text → Option Error
duplicate_error none id = some (other (codes "no such table"))
duplicate_error (some rows) id =
    if mentions (map version_id rows) id then some (other (codes "duplicate key")) else none

abbrev pub record_error : Text → Option Error → Option Error
record_error id none = none
record_error id (some e) = some (wrapped (codes "record migration " ++ id ++ codes ": ") e)

abbrev add_version : VersionRow → Option (List VersionRow) → Option (List VersionRow)
add_version v none = none
add_version v (some rows) = some (rows ++ v ∷ [])

-- One round of the loop; its statements are the i-th and the one behind it.
unfoldable pub apply_migration : Session → Text → ℕ → Migration → Action Schema (Unit {0})
apply_migration w driver i m = do
  check (failure (codes "migration " ++ m.id ++ codes ": ") (w.fails i))
  modify (λ s. record s { executed = s.executed ++ script driver m ∷ [] })
  check (failure (codes "record migration " ++ m.id ++ codes ": ") (w.fails (suc i)))
  s ← get
  check (record_error m.id (duplicate_error s.versions m.id))
  modify (λ s. record s { versions = add_version (version_row w m) s.versions })

unfoldable pub run_each : Session → Text → List Text → ℕ → List Migration → Action Schema (Unit {0})
run_each w driver applied i [] = pure tt
run_each w driver applied i (m ∷ ms) =
    let rest = run_each w driver applied (2 + i) ms in
    let round = apply_migration w driver i m in
    (if skips driver applied m then pure tt else round) >> rest

unfoldable pub run_migrations : Session → List Migration → Text → Action Schema (Unit {0})
run_migrations w migrations driver = do
  reject_if (is_empty (schema_version_table driver))
      (other (codes "unsupported driver for migration: " ++ driver))
  s ← get
  let first = select_ids (w.fails 0) s.versions
  create_unless w first
  s ← get
  run_each w driver (applied_ids first (select_ids (w.fails 2) s.versions)) 3 migrations

abbrev pub driver_map : Text → Option Text
driver_map driver =
    if text_eq driver (codes "sqlite")
    then some (codes "sqlite")
    else if text_eq driver (codes "postgres")
    then some (codes "pgx")
    else none

abbrev pub default_dsn : Text → Text
default_dsn driver =
    if text_eq driver (codes "sqlite")
    then codes "file:muninn.db?cache=shared&_journal_mode=WAL"
    else if text_eq driver (codes "postgres")
    then codes "postgres://localhost:5432/muninn?sslmode=disable"
    else []

-- The result is the field `driver` of the `dbStore`; its other field is the connection.
unfoldable pub new_db : Session → List Migration → Text → Text → Action Schema Text
new_db w migrations driver dsn = do
  sql_driver ← require (driver_map driver) (other (codes "unsupported driver: " ++ driver))
  let dsn = if is_empty dsn then default_dsn driver else dsn
  check (failure (codes "open " ++ driver ++ codes ": ") (w.open_error sql_driver dsn))
  check (failure (codes "ping " ++ driver ++ codes ": ") w.ping_error)
  wrap (codes "migrations " ++ driver ++ codes ": ") (run_migrations w migrations sql_driver)
  pure driver
