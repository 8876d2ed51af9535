-- ===== src/Database/Guards/Counts.antt =====
-- What the UPDATE statements of a heartbeat, a report and a confirmation do to each row.
use muninn.Prelude.{
  ◌≡◌, refl, Bool, true, false, ◌&&◌, ◌||◌, List, [], ◌∷◌, map, ap, if◌then◌else◌, ◌∙◌, Bool-cases,
  inl, inr,
}
use muninn.Prelude.Int.{ℤ, pos, negsuc, ◌+ℤ◌, ltb_ℤ, int_laws}
use muninn.Text.{Text, codes, text_eq}
use muninn.Outside.{unix_now}
use muninn.Database.{Database, PeerRow, ChunkRow, Server, update_where, has_id}
use muninn.Database.Reports.{count_row, confirm_row}
use muninn.Database.Outcome.Peers.{beaten}
use muninn.Database.Outcome.Reports.{counted, confirmed_database}

-- A row with one more report: a valid one adds one to the count of valid reports and to the score,
-- an invalid one adds one to the count of invalid reports and takes one from the score.
abbrev pub credited_row : Bool → PeerRow → PeerRow
credited_row true row = record row {
  quality_score = row.quality_score +ℤ pos 1;
  quality_valid = row.quality_valid +ℤ pos 1;
}
credited_row false row = record row {
  quality_score = row.quality_score +ℤ negsuc 0;
  quality_invalid = row.quality_invalid +ℤ pos 1;
}

-- The tables with one more report for the peers that pass a test.
abbrev pub credited : (PeerRow → Bool) → Bool → Database → Database
credited test valid db = record db {
  peers = map (λ row. if test row then credited_row valid row else row) db.peers;
}

-- The tables with the chunks that pass a test marked as confirmed at the clock's time.
abbrev pub marked : (ChunkRow → Bool) → ℤ → Database → Database
marked test clock db = record db {
  chunks =
      map (λ row. if test row then record row { confirmed = pos 1; updated_at = clock } else row)
        db.chunks;
}

-- The tables with the time of a beat in the peers of an id, and the time to live where one is
-- given.
abbrev pub seen : ℤ → Text → ℤ → Database → Database
seen now id ttl db = record db {
  peers =
      map
        (λ row.
          if text_eq row.id id
          then record row {
            last_seen = now;
            ttl_seconds = if ltb_ℤ (pos 0) ttl then ttl else row.ttl_seconds;
          }
          else row)
        db.peers;
}

update_where-map {ℓ} :
    {A : Type ℓ} (test : A → Bool) (f g : A → A) (xs : List A)
    → ((x : A) → f x ≡ g x)
    → update_where test f xs ≡ map (λ x. if test x then g x else x) xs
unfolding update_where
update_where-map test f g [] same = refl
update_where-map {A = A} test f g (x ∷ xs) same =
    ap (λ (y : A). (if test x then y else x) ∷ update_where test f xs) (same x)
    ∙ ap (λ (ys : List A). (if test x then g x else x) ∷ ys) (update_where-map test f g xs same)

add_zero : (n : ℤ) → n +ℤ pos 0 ≡ n
add_zero n = grind int_laws

count_row_lem : (valid : Bool) (row : PeerRow) → count_row valid row ≡ credited_row valid row
count_row_lem true row =
    ap (λ (n : ℤ). record (credited_row true row) { quality_invalid = n })
      (add_zero row.quality_invalid)
count_row_lem false row =
    ap (λ (n : ℤ). record (credited_row false row) { quality_valid = n })
      (add_zero row.quality_valid)

pub counted_lem :
    (test : PeerRow → Bool) (valid : Bool) (db : Database)
    → counted test valid db ≡ credited test valid db
counted_lem test valid db =
    ap (λ (rows : List PeerRow). record db { peers = rows })
      (update_where-map test (count_row valid) (credited_row valid) db.peers (count_row_lem valid))

pub beaten_lem :
    (w : Server) (id : Text) (ttl : ℤ) (db : Database)
    → beaten w id ttl db ≡ seen (unix_now w.outside) id ttl db
beaten_lem w id ttl db =
    ap (λ (rows : List PeerRow). record db { peers = rows })
      (update_where-map (has_id id) _ _ db.peers (λ row. refl))

pub confirmed_database_lem :
    (w : Server) (driver : Text) (valid : Bool) (test : ChunkRow → Bool) (db : Database)
    → confirmed_database w driver valid test db ≡ (
        if valid && (text_eq driver (codes "pgx") || text_eq driver (codes "sqlite"))
        then marked test w.clock db
        else db)
confirmed_database_lem w driver false test db = refl
confirmed_database_lem w driver true test db =
    elim (Bool-cases (text_eq driver (codes "pgx") || text_eq driver (codes "sqlite"))) [
      | inl known ↦ rw known (
          ap (λ (rows : List ChunkRow). record db { chunks = rows })
            (update_where-map test (confirm_row w.clock) _ db.chunks (λ row. refl)))
      | inr other ↦ rw other refl
    ]
