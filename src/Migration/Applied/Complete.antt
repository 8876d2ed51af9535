-- ===== src/Migration/Applied/Complete.antt =====
-- A run of the migrations whose statements do not fail.
use muninn.Prelude.{
  ℕ, suc, ◌+◌, ◌≡◌, refl, false, inl, inr, Option, none, some, List, [], ◌∷◌, ◌++◌, map, All,
  Bool-cases, arith,
}
use muninn.Text.{Text, text_eq, is_empty}
use muninn.Action.{Reply, done, failed, panicked, pure, ◌>>=◌, reject_if, check, get, modify}
use muninn.Migration.{Migration}
use muninn.Migration.Run.{
  VersionRow, Schema, Session, schema_version_table, version_id, mentions, skips, version_row,
  script, apply_migration, create_unless, run_each, run_migrations,
}
use muninn.Migration.Applied.{schema, todo, Ran, rows_of, run_migrations-Ran}

abbrev pub IsDistinct : List Migration → Type 0
IsDistinct [] = Unit
IsDistinct (m ∷ ms) = All (λ (n : Migration). text_eq m.id n.id ≡ false) ms × IsDistinct ms

-- No row has the id of a migration that the loop does not skip.
abbrev IsNew : List Text → List VersionRow → List Migration → Type 0
IsNew applied rows =
    All (λ (m : Migration).
      mentions applied m.id ≡ false → mentions (map version_id rows) m.id ≡ false)

mentions-recorded :
    (rows : List VersionRow) (v : VersionRow) (id : Text)
    → mentions (map version_id rows) id ≡ false
    → text_eq v.id id ≡ false
    → mentions (map version_id (rows ++ v ∷ [])) id ≡ false
mentions-recorded [] v id h e = ground arith
mentions-recorded (r ∷ rows) v id h e = ground (arith, mentions-recorded rows v id)

module _ (w : Session) (driver : Text) (passes : (i : ℕ) → w.fails i ≡ none) where
  recorded-IsNew :
      (applied : List Text) (rows : List VersionRow) (m : Migration) (ms : List Migration)
      → All (λ (n : Migration). text_eq m.id n.id ≡ false) ms
      → IsNew applied rows ms
      → IsNew applied (rows ++ version_row w m ∷ []) ms
  recorded-IsNew applied rows m [] _ _ = tt
  recorded-IsNew applied rows m (n ∷ ms) (apart, aparts) (fresh, freshes) = (
    λ h. mentions-recorded rows (version_row w m) n.id (fresh h) apart,
    recorded-IsNew applied rows m ms aparts freshes,
  )

  round_succeeds :
      (i : ℕ) (m : Migration) (rows : List VersionRow) (scripts : List Text)
      → mentions (map version_id rows) m.id ≡ false
      → apply_migration w driver i m (schema rows scripts)
        ≡ (done tt, schema (rows ++ version_row w m ∷ []) (scripts ++ script driver m ∷ []))
  unfolding apply_migration ◌>>=◌ check get modify
  round_succeeds i m rows scripts h = rw (passes i, passes (suc i), h) refl

  run_each_succeeds :
      (applied : List Text) (i : ℕ) (ms : List Migration) (rows : List VersionRow)
      (scripts : List Text)
      → IsDistinct ms
      → IsNew applied rows ms
      → (run_each w driver applied i ms (schema rows scripts)).0 ≡ done tt
  unfolding run_each ◌>>=◌ pure
  run_each_succeeds applied i [] rows scripts _ _ = refl
  run_each_succeeds applied i (m ∷ ms) rows scripts (apart, distinct) (fresh, freshes) =
      let next = run_each_succeeds applied (2 + i) ms in
      elim (Bool-cases (skips driver applied m)) [
        | inl e ↦ rw e (next rows scripts distinct freshes)
        | inr e ↦
            rw (e, round_succeeds i m rows scripts (fresh (unskipped applied m e)))
              (next _ _ distinct (recorded-IsNew applied rows m ms apart freshes))
      ]
    where
      unskipped :
          (applied : List Text) (m : Migration)
          → skips driver applied m ≡ false
          → mentions applied m.id ≡ false
      unskipped applied m h = ground arith

  IsNew-itself :
      (rows : List VersionRow) (ms : List Migration) → IsNew (map version_id rows) rows ms
  IsNew-itself rows [] = tt
  IsNew-itself rows (m ∷ ms) = (λ h. h, IsNew-itself rows ms)

  run_from_succeeds :
      (ms : List Migration) (v : Option (List VersionRow)) (scripts : List Text)
      → is_empty (schema_version_table driver) ≡ false
      → IsDistinct ms
      → (run_migrations w ms driver (record { versions = v; executed = scripts })).0 ≡ done tt
  unfolding run_migrations create_unless ◌>>=◌ reject_if get check modify pure
  run_from_succeeds ms none scripts known distinct =
      rw (known, passes 0, passes 1, passes 2)
        (run_each_succeeds [] 3 ms [] scripts distinct (IsNew-itself [] ms))
  run_from_succeeds ms (some rows) scripts known distinct =
      rw (known, passes 0)
        (run_each_succeeds (map version_id rows) 3 ms rows scripts distinct (IsNew-itself rows ms))

-- A run for a known driver in which no statement fails, and whose migrations have distinct ids,
-- succeeds: it runs and records, in their order, the migrations that have a script for the driver
-- and are not in the table of versions.
pub run_migrations_succeeds :
    (w : Session) (ms : List Migration) (driver : Text) (s : Schema)
    → ((i : ℕ) → w.fails i ≡ none)
    → is_empty (schema_version_table driver) ≡ false
    → IsDistinct ms
    → run_migrations w ms driver s ≡ (
      done tt,
      schema
          (rows_of s.versions
            ++ map (version_row w) (todo driver (map version_id (rows_of s.versions)) ms))
          (s.executed
            ++ map (script driver) (todo driver (map version_id (rows_of s.versions)) ms)),
    )
run_migrations_succeeds w ms driver s passes known distinct =
    after (run_migrations w ms driver s)
      (run_from_succeeds w driver passes ms s.versions s.executed known distinct)
      (run_migrations-Ran w ms driver s (passes 0, passes 1, passes 2) known)
  where
    after :
        (r : Reply (Unit {0}) × Schema)
        → r.0 ≡ done tt
        → Ran w driver
            (todo driver (map version_id (rows_of s.versions)) ms)
            (rows_of s.versions)
            s.executed
            r
        → r ≡ (
          done tt,
          schema
              (rows_of s.versions
                ++ map (version_row w) (todo driver (map version_id (rows_of s.versions)) ms))
              (s.executed
                ++ map (script driver) (todo driver (map version_id (rows_of s.versions)) ms)),
        )
    after (done u, t) _ e = λ i. (done tt, e i)
    after (failed x, t) h _ = cc
    after (panicked, t) h _ = cc
