-- ===== src/Server/Opened.antt =====
-- The stores that `main` opens, and what the driver does to them.
use muninn.Prelude.{◌≡◌, refl, ◌∙◌, true, false, inl, inr, some, List, [], ◌∷◌, Bool-cases, arith}
use muninn.Text.{Text, codes, text_eq}
use muninn.Text.Equality.{eq_of_text_eq}
use muninn.Action.{Reply, done, failed, panicked, pure}
use muninn.Action.Rules.{Then, after_require, after_check, after_call}
use muninn.Memory.Calls.{Call}
use muninn.Migration.{Migration}
use muninn.Migration.Run.{Schema, Session, driver_map, new_db}
use muninn.Database.{Database, failure}
use muninn.Database.Calls.{step}
use muninn.Database.Guards.{marks, postgres_keeps_chunks}
use muninn.Database
use muninn.Server.{Environment, database, chosen_backend, chosen_driver, backend_of, clean}

abbrev Keeps : Text → Text → Reply Text × Schema → Type 0
Keeps driver opened r = r.0 ≡ done opened → opened ≡ driver

after_migrations :
    (driver opened : Text) (r : Reply (Unit {0}) × Schema)
    → Then (Keeps driver opened) (λ _. pure driver) r
unfolding pure
after_migrations driver opened (done u, s) = λ e. cc
after_migrations driver opened (failed x, s) = λ e. cc
after_migrations driver opened (panicked, s) = λ e. cc

-- The store keeps the driver that it is asked for, not the name of the `sql` driver.
new_db-driver :
    (w : Session) (ms : List Migration) (driver dsn : Text) (s : Schema) (opened : Text)
    → (new_db w ms driver dsn s).0 ≡ done opened
    → opened ≡ driver
unfolding new_db
new_db-driver w ms driver dsn s opened =
    let Q = Keeps driver opened in
    after_require Q _ _ s (λ _ e. cc)
      λ sql_driver known.
        after_check Q _ _ s (λ _ _ e. cc)
          λ _.
            after_check Q _ _ s (λ _ _ e. cc)
              λ _. after_call Q _ _ s (after_migrations driver opened _)

-- In a store that NewDB opens for Postgres confirmations, readings and purges leave every chunk as
-- it was, whether they succeed or not.
pub opened_postgres_keeps_chunks :
    (w : Session) (ms : List Migration) (dsn : Text) (s : Schema) (opened : Text)
    → (new_db w ms (codes "postgres") dsn s).0 ≡ done opened
    → (v : Database.Server) (c : Call) (db : Database) → marks c ≡ true
    → (step v opened c db).chunks ≡ db.chunks
opened_postgres_keeps_chunks w ms dsn s opened success v c db h =
    rw (new_db-driver w ms (codes "postgres") dsn s opened success) (postgres_keeps_chunks v c db h)

-- The cleaner that runs beside a store opened for Postgres removes no chunk, however often the
-- clock ticks.
ticks_keep_chunks :
    (ticks : List Database.Server) (db : Database)
    → (clean (λ v. step v (codes "postgres") Call.delete_expired_chunks) ticks db).chunks
      ≡ db.chunks
unfolding clean
ticks_keep_chunks [] db = refl
ticks_keep_chunks (v ∷ ticks) db =
    ticks_keep_chunks ticks (step v (codes "postgres") Call.delete_expired_chunks db)
    ∙ postgres_keeps_chunks v Call.delete_expired_chunks db refl

backend_of-IsKnown :
    (chosen given driver dsn : Text)
    → backend_of chosen given ≡ database driver dsn
    → (sql_driver : Text) × (driver_map driver ≡ some sql_driver)
backend_of-IsKnown chosen given driver dsn h = elim (Bool-cases (text_eq chosen (codes "sqlite"))) [
  | inl e ↦ (codes "sqlite", supported (codes "sqlite") e (ground arith) refl)
  | inr e ↦ elim (Bool-cases (text_eq chosen (codes "postgres"))) [
    | inl f ↦ (codes "pgx", supported (codes "postgres") f (ground arith) refl)
    | inr f ↦ absurd (none_chosen e f)
  ]
]
  where
    supported :
        (name : Text) {sql_driver : Text}
        → text_eq chosen name ≡ true
        → chosen ≡ driver
        → driver_map name ≡ some sql_driver
        → driver_map driver ≡ some sql_driver
    supported name e f h = rw (← f, eq_of_text_eq chosen name e) h

    none_chosen :
        text_eq chosen (codes "sqlite") ≡ false → text_eq chosen (codes "postgres") ≡ false → ⊥
    none_chosen e f = ground arith

-- The driver that `main` hands to NewDB, whatever the environment says, is one that NewDB supports.
pub chosen_backend-IsKnown :
    (e : Environment) (driver dsn : Text)
    → chosen_backend e ≡ database driver dsn
    → (sql_driver : Text) × (driver_map driver ≡ some sql_driver)
unfolding chosen_backend
chosen_backend-IsKnown e driver dsn h =
    backend_of-IsKnown (chosen_driver (e.variable (codes "MUNINN_STORE_DRIVER"))) _ driver dsn h
