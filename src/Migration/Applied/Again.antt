-- ===== src/Migration/Applied/Again.antt =====
-- A second run of the migrations, behind one that has succeeded.
use muninn.Prelude.{
  In, here, there, ◌≡◌, refl, ap, ◌∙◌, true, false, inl, inr, List, [], ◌∷◌, ◌++◌, append-nil, map,
  Bool-cases, arith,
}
use muninn.Text.{Text, is_empty}
use muninn.Text.Equality.{text_eq_refl}
use muninn.Action.{Reply, done, failed, panicked}
use muninn.Migration.{Migration}
use muninn.Migration.Run.{
  VersionRow, Schema, Session, schema_version_table, version_id, mentions, skips, version_row,
  run_migrations,
}
use muninn.Migration.Applied.{schema, todo, Ran, rows_of, Reads, run_migrations-Ran}

-- The ids of the rows that are there and of the rows that are added.
mentions_left :
    (rows added : List VersionRow) (id : Text)
    → mentions (map version_id rows) id ≡ true
    → mentions (map version_id (rows ++ added)) id ≡ true
mentions_left [] added id h = cc
mentions_left (r ∷ rows) added id h = ground (arith, mentions_left rows added id)

mentions_right :
    (rows added : List VersionRow) (id : Text)
    → mentions (map version_id added) id ≡ true
    → mentions (map version_id (rows ++ added)) id ≡ true
mentions_right [] added id h = h
mentions_right (r ∷ rows) added id h = ground (arith, mentions_right rows added id)

abbrev migration_id : Migration → Text
migration_id m = m.id

mentions-recorded :
    (w : Session) {m : Migration} (ms : List Migration)
    → In m ms
    → mentions (map version_id (map (version_row w) ms)) m.id ≡ true
mentions-recorded w [] m = elim m [ ]
mentions-recorded w (n ∷ ms) (here e) = rw (← ap migration_id e, text_eq_refl) refl
mentions-recorded w (n ∷ ms) (there m) = let rest = mentions-recorded w ms m in ground arith

still_skipped :
    (driver : Text) (old new : List Text) (m : Migration)
    → (mentions old m.id ≡ true → mentions new m.id ≡ true)
    → skips driver old m ≡ true
    → skips driver new m ≡ true
still_skipped driver old new m more h = ground arith

-- Nothing is left to do where the ids are mentioned of the old rows and of what there was to do.
todo-none :
    (driver : Text) (old new : List Text) (ms : List Migration)
    → ((id : Text) → mentions old id ≡ true → mentions new id ≡ true)
    → ((m : Migration) → In m (todo driver old ms) → mentions new m.id ≡ true)
    → todo driver new ms ≡ []
todo-none driver old new [] more all = refl
todo-none driver old new (m ∷ ms) more all = elim (Bool-cases (skips driver old m)) [
  | inl e ↦
      rw (still_skipped driver old new m (more m.id) e)
        (todo-none driver old new ms more (λ n listed. all n (rw e listed)))
  | inr e ↦
      (let recorded : mentions new m.id ≡ true = all m (rw e (here refl)) in
        rw recorded (todo-none driver old new ms more (λ n listed. all n (rw e (there listed)))))
]

-- With nothing to do a run succeeds and leaves the state.
Ran-none :
    (w : Session) (driver : Text) (ms : List Migration) (rows : List VersionRow)
    (scripts : List Text) (r : Reply (Unit {0}) × Schema)
    → ms ≡ []
    → Ran w driver ms rows scripts r
    → r ≡ (done tt, schema rows scripts)
Ran-none w driver [] rows scripts (done u, s) e h =
    λ i. (done tt, (h ∙ λ j. schema (append-nil rows j) (append-nil scripts j)) i)
Ran-none w driver [] rows scripts (failed x, s) e ([], m, behind, split, _) = cc
Ran-none w driver [] rows scripts (failed x, s) e (b ∷ before, m, behind, split, _) = cc
Ran-none w driver [] rows scripts (panicked, s) e h = elim h [ ]
Ran-none w driver (m ∷ ms) rows scripts r e h = cc

-- Where a run for a known driver has succeeded, the next one for the same driver and migrations
-- succeeds too, and runs and records nothing, if the SELECTs and the CREATE of both do not fail.
pub run_migrations_again :
    (w again : Session) (ms : List Migration) (driver : Text) (s : Schema)
    → Reads w
    → Reads again
    → is_empty (schema_version_table driver) ≡ false
    → (run_migrations w ms driver s).0 ≡ done tt
    → run_migrations again ms driver (run_migrations w ms driver s).1
      ≡ (done tt, (run_migrations w ms driver s).1)
run_migrations_again w again ms driver s reads reads_again known success =
    after (run_migrations w ms driver s) success (run_migrations-Ran w ms driver s reads known)
  where
    after :
        (r : Reply (Unit {0}) × Schema)
        → r.0 ≡ done tt
        → Ran w driver
            (todo driver (map version_id (rows_of s.versions)) ms)
            (rows_of s.versions)
            s.executed
            r
        → run_migrations again ms driver r.1 ≡ (done tt, r.1)
    after (done u, t) _ e =
        let rows = rows_of s.versions in
        let new = todo driver (map version_id rows) ms in
        let recorded = map (version_row w) new in
        rw e (
          Ran-none again driver _ (rows ++ recorded) _ _
            (todo-none driver (map version_id rows) (map version_id (rows ++ recorded)) ms
              (mentions_left rows recorded)
              (λ m listed. mentions_right rows recorded m.id (mentions-recorded w new listed)))
            (run_migrations-Ran again ms driver (schema (rows ++ recorded) _) reads_again known))
    after (failed x, t) h _ = cc
    after (panicked, t) h _ = cc
