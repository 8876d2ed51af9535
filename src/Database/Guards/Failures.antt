-- ===== src/Database/Guards/Failures.antt =====
-- What a call of `dbStore` that fails may have written.
use muninn.Prelude.{
  ◌≡◌, refl, Bool, true, ◌&&◌, ◌||◌, ◌⊎◌, inl, inr, In, In-keep, In-perm, keep, if◌then◌else◌,
  arith, ap, ◌∙◌,
}
use muninn.Prelude.Int.{eqb_ℤ, ℤ}
use muninn.Text.{Text, codes, trim_space, text_eq}
use muninn.Text.Equality.{eq_of_text_eq}
use muninn.Model.{ChunkReportRequest, ConfirmChunkRequest}
use muninn.Outside.{unix_now}
use muninn.Hash.{normalize_hash}
use muninn.Memory.Calls.{Call}
use muninn.Database.{Database, ChunkRow, Server, IsFairServer, has_id}
use muninn.Database.Reports.{is_chunk, is_addressed, holds_key}
use muninn.Database.Outcome.Reports.{counted, confirmed_database}
use muninn.Database.Guards.Counts.{credited, marked, seen, counted_lem, confirmed_database_lem}
use muninn.Database.Guards.Reported.{is_chunk-file, is_chunk-index}

-- The tables `db'` are those of `db` with a report counted for the peers of the id `source`: as a
-- valid one exactly if its hash is that of a row of the chunk.
pub record IsCountedReport (w : Server) (source : Text) (req : ChunkReportRequest)
    (db db' : Database) : Type 0 where
  pub row : ChunkRow
  pub listed : In row db.chunks
  pub file : row.file_id ≡ trim_space req.file_id
  pub index : row.chunk_index ≡ req.chunk_index
  pub state :
      db'
      ≡ credited
          (λ p. text_eq p.id source)
          (text_eq (normalize_hash w.outside.lower_wide req.hash) row.expected_hash)
          db

-- The chunk of the request that is for its recipient.
abbrev pub is_meant : ConfirmChunkRequest → ChunkRow → Bool
is_meant req c =
    (text_eq c.file_id (trim_space req.file_id) && eqb_ℤ c.chunk_index req.chunk_index)
    && text_eq c.recipient_id (trim_space req.recipient_id)

-- The tables `db'` are those of `db` with a confirmation counted for the peers whose key is the
-- sender of a row of the chunk for the recipient: as a valid one exactly if its hash is the row's.
-- If it is valid and the driver is one of the two that are known, the rows of the chunk for the
-- recipient may be marked as confirmed besides.
pub record IsCountedConfirmation (w : Server) (driver : Text) (req : ConfirmChunkRequest)
    (db db' : Database) : Type 0 where
  pub row : ChunkRow
  pub listed : In row db.chunks
  pub file : row.file_id ≡ trim_space req.file_id
  pub index : row.chunk_index ≡ req.chunk_index
  pub recipient : row.recipient_id ≡ trim_space req.recipient_id
  pub valid : Bool
  pub verdict : valid ≡ text_eq (normalize_hash w.outside.lower_wide req.hash) row.expected_hash
  pub state :
      (db' ≡ credited (λ p. text_eq p.key row.sender_id) valid db)
      ⊎ (db' ≡ (
          if valid && (text_eq driver (codes "pgx") || text_eq driver (codes "sqlite"))
          then marked (is_meant req) w.clock (credited (λ p. text_eq p.key row.sender_id) valid db)
          else credited (λ p. text_eq p.key row.sender_id) valid db))

-- What is left of a call that fails. A heartbeat, a report and a confirmation write before they
-- read the peer that they return.
abbrev pub Leftover : Server → Text → Call → Database → Database → Type 0
Leftover w driver (Call.heartbeat id ttl) db db' =
    (db' ≡ db) ⊎ (db' ≡ seen (unix_now w.outside) (trim_space id) ttl db)
Leftover w driver (Call.report_chunk id req) db db' =
    (db' ≡ db) ⊎ IsCountedReport w (trim_space id) req db db'
Leftover w driver (Call.confirm_chunk req) db db' =
    (db' ≡ db) ⊎ IsCountedConfirmation w driver req db db'
Leftover w driver _ db db' = db' ≡ db

is_addressed-chunk :
    (file_id : Text) (i : ℤ) (recipient : Text) (row : ChunkRow)
    → is_addressed file_id i recipient row ≡ true
    → is_chunk file_id i row ≡ true
is_addressed-chunk file_id i recipient row h = ground arith

is_addressed-recipient :
    (file_id : Text) (i : ℤ) (recipient : Text) (row : ChunkRow)
    → is_addressed file_id i recipient row ≡ true
    → text_eq row.recipient_id recipient ≡ true
is_addressed-recipient file_id i recipient row h = ground arith

module _ (w : Server) (fair : IsFairServer w) where
  pub report-IsCounted :
      (source : Text) (req : ChunkReportRequest) (db : Database) (row : ChunkRow)
      → In row
          (keep (is_chunk (trim_space req.file_id) req.chunk_index) (w.chunk_order 1 db.chunks))
      → IsCountedReport w (trim_space source) req db (
          counted
            (has_id (trim_space source))
            (text_eq (normalize_hash w.outside.lower_wide req.hash) row.expected_hash)
            db)
  report-IsCounted source req db row m =
      let (listed, about) =
        In-keep (is_chunk (trim_space req.file_id) req.chunk_index) (w.chunk_order 1 db.chunks) m in
      record {
        row = row;
        listed = In-perm (fair.chunk_perm 1 db.chunks) listed;
        file = eq_of_text_eq _ _ (is_chunk-file _ req.chunk_index row about);
        index = is_chunk-index (trim_space req.file_id) _ row about;
        state = counted_lem (has_id (trim_space source)) _ db;
      }

  module _ (req : ConfirmChunkRequest) (db : Database) (row : ChunkRow) where
    -- A row that the SELECT of a confirmation finds.
    pub is_addressed-parts :
        In row (
          keep
            (is_addressed (trim_space req.file_id) req.chunk_index (trim_space req.recipient_id))
            (w.chunk_order 1 db.chunks))
        → In row db.chunks
          × (row.file_id ≡ trim_space req.file_id)
          × (row.chunk_index ≡ req.chunk_index)
          × (row.recipient_id ≡ trim_space req.recipient_id)
    is_addressed-parts m =
        let (listed, about) =
          In-keep
            (is_addressed (trim_space req.file_id) req.chunk_index (trim_space req.recipient_id))
            (w.chunk_order 1 db.chunks) m in
        let chunk =
          is_addressed-chunk (trim_space req.file_id) req.chunk_index (trim_space req.recipient_id)
            row about in
        (
          In-perm (fair.chunk_perm 1 db.chunks) listed,
          eq_of_text_eq _ _ (is_chunk-file _ req.chunk_index row chunk),
          is_chunk-index (trim_space req.file_id) _ row chunk,
          eq_of_text_eq _ _
              (is_addressed-recipient (trim_space req.file_id) req.chunk_index _ row about),
        )

    module _ (driver : Text) where
      abbrev is_valid : Bool
      is_valid = text_eq (normalize_hash w.outside.lower_wide req.hash) row.expected_hash

      -- The tables behind both UPDATE statements of a confirmation.
      pub confirmed_counted :
          confirmed_database w driver is_valid
            (is_addressed (trim_space req.file_id) req.chunk_index (trim_space req.recipient_id))
            (counted (holds_key row.sender_id) is_valid db)
          ≡ (if is_valid && (text_eq driver (codes "pgx") || text_eq driver (codes "sqlite"))
              then marked
                  (is_meant req)
                  w.clock
                  (credited (λ p. text_eq p.key row.sender_id) is_valid db)
              else credited (λ p. text_eq p.key row.sender_id) is_valid db)
      confirmed_counted =
          confirmed_database_lem w driver is_valid _ _
          ∙ ap
              (λ (t : Database).
                if is_valid && (text_eq driver (codes "pgx") || text_eq driver (codes "sqlite"))
                then marked (is_meant req) w.clock t
                else t)
              (counted_lem (holds_key row.sender_id) is_valid db)

      module _
          (m : In row (
            keep
              (is_addressed (trim_space req.file_id) req.chunk_index (trim_space req.recipient_id))
              (w.chunk_order 1 db.chunks))) where
        confirmation :
            (db' : Database)
            → (db' ≡ credited (λ p. text_eq p.key row.sender_id) is_valid db)
              ⊎ (db' ≡ (
                  if is_valid && (text_eq driver (codes "pgx") || text_eq driver (codes "sqlite"))
                  then marked
                      (is_meant req)
                      w.clock
                      (credited (λ p. text_eq p.key row.sender_id) is_valid db)
                  else credited (λ p. text_eq p.key row.sender_id) is_valid db))
            → IsCountedConfirmation w driver req db db'
        confirmation db' state =
            let (listed, file, index, recipient) = is_addressed-parts m in
            record {
              row = row;
              listed = listed;
              file = file;
              index = index;
              recipient = recipient;
              valid = is_valid;
              verdict = refl;
              state = state;
            }

        pub unmarked-IsConfirmation :
            IsCountedConfirmation w driver req db (counted (holds_key row.sender_id) is_valid db)
        unmarked-IsConfirmation =
            confirmation _ (inl (counted_lem (holds_key row.sender_id) is_valid db))

        pub marked-IsConfirmation : IsCountedConfirmation w driver req db (
            confirmed_database w driver is_valid
              (is_addressed (trim_space req.file_id) req.chunk_index (trim_space req.recipient_id))
              (counted (holds_key row.sender_id) is_valid db))
        marked-IsConfirmation = confirmation _ (inr confirmed_counted)
