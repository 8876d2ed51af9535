-- ===== src/Database/Guards/Confirmed.antt =====
-- What an accepted confirmation over a database is about, and what it has changed.
use muninn.Prelude.{◌≡◌, ◌↔◌, true, ◌&&◌, ◌||◌, In, if◌then◌else◌}
use muninn.Prelude.Int.{pos, negsuc}
use muninn.Text.{Text, codes, text_eq, trim_space}
use muninn.Model.{ConfirmChunkRequest, ConfirmChunkResult}
use muninn.Hash.{normalize_hash}
use muninn.Database.{Database, ChunkRow, PeerRow, Server}
use muninn.Database.Guards.Counts.{credited, marked}
use muninn.Database.Guards.Failures.{is_meant}

-- The answer `r` is about a row of the chunk for the recipient: the confirmation is valid exactly
-- if the hash is the row's. In `db'` the peers whose key is the row's sender have one more report,
-- and one point more or less; the rows of the chunk for the recipient are marked as confirmed if
-- the confirmation is valid and the driver is one of the two that are known. All else is as in
-- `db`. The peer that is returned has the score and the counters of a row of `db'` with the
-- sender's key.
pub record IsConfirmedOver (w : Server) (driver : Text) (req : ConfirmChunkRequest) (db : Database)
    (r : ConfirmChunkResult) (db' : Database) : Type 0 where
  pub row : ChunkRow
  pub listed : In row db.chunks
  pub file : row.file_id ≡ trim_space req.file_id
  pub index : row.chunk_index ≡ req.chunk_index
  pub recipient : row.recipient_id ≡ trim_space req.recipient_id
  pub expected : r.expected_hash ≡ row.expected_hash
  pub valid : (r.valid ≡ true) ↔ (normalize_hash w.outside.lower_wide req.hash ≡ row.expected_hash)
  pub delta : r.delta ≡ (if r.valid then pos 1 else negsuc 0)
  pub state : db' ≡ (
      if r.valid && (text_eq driver (codes "pgx") || text_eq driver (codes "sqlite"))
      then marked (is_meant req) w.clock (credited (λ p. text_eq p.key row.sender_id) r.valid db)
      else credited (λ p. text_eq p.key row.sender_id) r.valid db)
  pub sender_row : PeerRow
  pub stored : In sender_row db'.peers
  pub keyed : sender_row.key ≡ trim_space row.sender_id
  pub score : r.peer.quality_score ≡ sender_row.quality_score
  pub quality : r.peer.quality ≡ record {
    valid_reports = sender_row.quality_valid;
    invalid_reports = sender_row.quality_invalid;
  }
