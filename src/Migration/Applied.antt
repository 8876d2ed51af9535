-- ===== src/Migration/Applied.antt =====
-- What a run of the migrations has done when it ends, with or without an error, and what the next
-- run does.
pub mod Again
pub mod Complete
use muninn.Prelude.{
  ℕ, suc, ◌+◌, ◌≡◌, refl, sym, ap, ◌∙◌, subst, Bool, true, false, not, ◌||◌, ◌⊎◌, inl, inr, Option,
  none, some, List, [], ◌∷◌, ◌++◌, append_assoc, append-nil, map, keep, if◌then◌else◌, Bool-cases,
  arith,
}
use muninn.Text.{Text, is_empty}
use muninn.Score.{Error}
use muninn.Action.{
  Reply, done, failed, panicked, Action, pure, ◌>>=◌, ◌>>◌, reject_if, check, get, modify,
}
use muninn.Action.Rules.{
  Then, after_call, after_check, after_reject, after_get, after_modify, after_last_modify,
  after_pure,
}
use muninn.Migration.{Migration}
use muninn.Migration.Run.{
  VersionRow, Schema, Session, schema_version_table, version_id, select_ids, created, create_unless,
  applied_ids, script, skips, version_row, apply_migration, run_each, run_migrations,
}

abbrev pub schema : List VersionRow → List Text → Schema
schema rows scripts = record { versions = some rows; executed = scripts }

-- The migrations that the loop does not skip.
abbrev pub todo : Text → List Text → List Migration → List Migration
todo driver applied ms = keep (λ m. not (skips driver applied m)) ms

-- How a run ends that has the migrations `ms` to do: it has run and recorded all of them in their
-- order, or, where it fails, the first ones and, it may be, one more script that is not recorded.
abbrev pub Ran :
    Session
    → Text
    → List Migration
    → List VersionRow
    → List Text
    → Reply (Unit {0}) × Schema
    → Type 0
Ran w driver ms rows scripts (done u, s) =
    s ≡ schema (rows ++ map (version_row w) ms) (scripts ++ map (script driver) ms)
Ran w driver ms rows scripts (failed e, s) =
    (before : List Migration) × (m : Migration) × (behind : List Migration) × (ms
      ≡ before ++ m ∷ behind)
    × ((s ≡ schema (rows ++ map (version_row w) before) (scripts ++ map (script driver) before))
        ⊎ (s
            ≡ schema (rows ++ map (version_row w) before)
                (scripts ++ map (script driver) before ++ script driver m ∷ [])))
Ran w driver ms rows scripts (panicked, s) = ⊥

module _ (w : Session) (driver : Text) where
  apply_migration_outcome {ℓ} :
      (i : ℕ) (m : Migration) (rows : List VersionRow) (scripts : List Text)
      (Q : Reply (Unit {0}) × Schema → Type ℓ)
      → ((e : Error) → Q (failed e, schema rows scripts))
      → ((e : Error) → Q (failed e, schema rows (scripts ++ script driver m ∷ [])))
      → Q (done tt, schema (rows ++ version_row w m ∷ []) (scripts ++ script driver m ∷ []))
      → Q (apply_migration w driver i m (schema rows scripts))
  unfolding apply_migration
  apply_migration_outcome i m rows scripts Q unrun unrecorded go =
      after_check Q _ _ _ (λ e _. unrun e)
        λ _. after_modify Q _ _ _ (
          after_check Q _ _ _ (λ e _. unrecorded e)
            λ _.
              after_get Q _ _
                (after_check Q _ _ _ (λ e _. unrecorded e) (λ _. after_last_modify Q _ _ go)))

  unchanged :
      (rows : List VersionRow) (scripts : List Text)
      → schema rows scripts ≡ schema (rows ++ []) (scripts ++ [])
  unchanged rows scripts = λ i. schema (sym (append-nil rows) i) (sym (append-nil scripts) i)

  none_added :
      (rows : List VersionRow) (scripts last : List Text)
      → schema rows (scripts ++ last) ≡ schema (rows ++ []) (scripts ++ [] ++ last)
  none_added rows scripts last =
      λ i. schema (sym (append-nil rows) i) (sym (append-nil scripts) i ++ last)

  -- What holds of the rest of a run holds of the run with a migration in front of it.
  Ran-cons :
      (m : Migration) (ms : List Migration) (rows : List VersionRow) (scripts : List Text)
      (r : Reply (Unit {0}) × Schema)
      → Ran w driver ms (rows ++ version_row w m ∷ []) (scripts ++ script driver m ∷ []) r
      → Ran w driver (m ∷ ms) rows scripts r
  Ran-cons m ms rows scripts (done u, s) h = h ∙ λ i.
      schema (append_assoc rows (version_row w m ∷ []) (map (version_row w) ms) i)
        (append_assoc scripts (script driver m ∷ []) (map (script driver) ms) i)
  Ran-cons m ms rows scripts (failed e, s) (before, n, behind, split, inl h) = (
    m ∷ before,
    n,
    behind,
    ap (λ xs. m ∷ xs) split,
    inl (
        h ∙ λ i.
        schema (append_assoc rows (version_row w m ∷ []) (map (version_row w) before) i)
          (append_assoc scripts (script driver m ∷ []) (map (script driver) before) i)),
  )
  Ran-cons m ms rows scripts (failed e, s) (before, n, behind, split, inr h) = (
    m ∷ before,
    n,
    behind,
    ap (λ xs. m ∷ xs) split,
    inr (
        h ∙ λ i. schema (append_assoc rows (version_row w m ∷ []) (map (version_row w) before) i) (
          append_assoc scripts (script driver m ∷ []) (map (script driver) before) i
          ++ script driver n ∷ [])),
  )
  Ran-cons m ms rows scripts (panicked, s) h = h

  run_each-Ran :
      (applied : List Text) (i : ℕ) (ms : List Migration) (rows : List VersionRow)
      (scripts : List Text)
      → Ran w driver
          (todo driver applied ms)
          rows
          scripts
          (run_each w driver applied i ms (schema rows scripts))
  unfolding run_each
  run_each-Ran applied i [] rows scripts =
      after_pure (Ran w driver [] rows scripts) tt _ (unchanged rows scripts)
  run_each-Ran applied i (m ∷ ms) rows scripts =
      let next = run_each-Ran applied (2 + i) ms in
      elim (Bool-cases (skips driver applied m)) [
        | inl e ↦ rw e (
            after_call (Ran w driver (todo driver applied ms) rows scripts) _ _ _ (
              after_pure (Then (Ran w driver (todo driver applied ms) rows scripts) _) tt _
                (next rows scripts)))
        | inr e ↦ rw e (
            let Q = Ran w driver (m ∷ todo driver applied ms) rows scripts in
            after_call Q _ (λ _. run_each w driver applied (2 + i) ms) _
              (apply_migration_outcome i m rows scripts
                (Then Q (λ _. run_each w driver applied (2 + i) ms))
                (λ _. ([], m, _, refl, inl (unchanged rows scripts)))
                (λ _. ([], m, _, refl, inr (none_added rows scripts (script driver m ∷ []))))
                (Ran-cons m _ rows scripts _ (next _ _))))
      ]

abbrev pub rows_of : Option (List VersionRow) → List VersionRow
rows_of none = []
rows_of (some rows) = rows

-- The two SELECTs and the CREATE do not fail.
abbrev pub Reads : Session → Type 0
Reads w = (w.fails 0 ≡ none) × (w.fails 1 ≡ none) × (w.fails 2 ≡ none)

module _ (w : Session) (ms : List Migration) (driver : Text) (reads : Reads w) where
  run_from :
      (v : Option (List VersionRow)) (scripts : List Text)
      → is_empty (schema_version_table driver) ≡ false
      → Ran w driver
          (todo driver (map version_id (rows_of v)) ms)
          (rows_of v)
          scripts
          (run_migrations w ms driver (record { versions = v; executed = scripts }))
  unfolding run_migrations create_unless ◌>>=◌ reject_if get check modify pure
  run_from none scripts known =
      let (first, second, third) = reads in
      rw (known, first, second, third) (run_each-Ran w driver [] 3 ms [] scripts)
  run_from (some rows) scripts known =
      let (first, second, third) = reads in
      rw (known, first) (run_each-Ran w driver (map version_id rows) 3 ms rows scripts)

pub run_migrations-Ran :
    (w : Session) (ms : List Migration) (driver : Text) (s : Schema)
    → Reads w
    → is_empty (schema_version_table driver) ≡ false
    → Ran w driver
        (todo driver (map version_id (rows_of s.versions)) ms)
        (rows_of s.versions)
        s.executed
        (run_migrations w ms driver s)
run_migrations-Ran w ms driver s reads known =
    run_from w ms driver reads s.versions s.executed known
