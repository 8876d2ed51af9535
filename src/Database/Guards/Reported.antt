-- ===== src/Database/Guards/Reported.antt =====
-- What an accepted report over a database is about, and what it has changed.
use muninn.Prelude.{◌≡◌, ◌↔◌, refl, true, In, In-keep, In-perm, arith, ap, ◌∙◌, if◌then◌else◌}
use muninn.Prelude.Int.{ℤ, pos, negsuc, eq_of_parts}
use muninn.Text.{Text, text_eq, trim_space}
use muninn.Text.Equality.{text_eq_iff, eq_of_text_eq}
use muninn.Model.{Peer, ChunkReportRequest, ChunkReportResult}
use muninn.Hash.{normalize_hash}
use muninn.Action.{done}
use muninn.Database.{Database, ChunkRow, PeerRow, Server, IsFairServer, has_id}
use muninn.Database.Reports.{report_chunk, is_chunk}
use muninn.Database.Outcome.Reports.{report_chunk_outcome}
use muninn.Database.Guards.Counts.{credited, counted_lem}

-- The answer `r` is about a row of the chunk: the report is valid exactly if the hash is the
-- row's. In `db'` the rows of the source have one more report, and one point more or less by what
-- the report is; every other row, the chunks and the signals are those of `db`. The peer that is
-- returned has the score and the counters of a row of the source in `db'`.
pub record IsReported (w : Server) (source : Text) (req : ChunkReportRequest) (db : Database)
    (r : ChunkReportResult) (db' : Database) : Type 0 where
  pub row : ChunkRow
  pub listed : In row db.chunks
  pub file : row.file_id ≡ trim_space req.file_id
  pub index : row.chunk_index ≡ req.chunk_index
  pub expected : r.expected_hash ≡ row.expected_hash
  pub valid : (r.valid ≡ true) ↔ (normalize_hash w.outside.lower_wide req.hash ≡ row.expected_hash)
  pub delta : r.delta ≡ (if r.valid then pos 1 else negsuc 0)
  pub state : db' ≡ credited (λ p. text_eq p.id source) r.valid db
  pub source_row : PeerRow
  pub stored : In source_row db'.peers
  pub named : source_row.id ≡ source
  pub returned : r.peer.id ≡ source
  pub score : r.peer.quality_score ≡ source_row.quality_score
  pub quality : r.peer.quality ≡ record {
    valid_reports = source_row.quality_valid;
    invalid_reports = source_row.quality_invalid;
  }

pub is_chunk-file :
    (file_id : Text) (i : ℤ) (row : ChunkRow)
    → is_chunk file_id i row ≡ true
    → text_eq row.file_id file_id ≡ true
is_chunk-file file_id i row h = ground arith

pub is_chunk-index :
    (file_id : Text) (i : ℤ) (row : ChunkRow) → is_chunk file_id i row ≡ true → row.chunk_index ≡ i
is_chunk-index file_id i row h = ground (arith, eq_of_parts row.chunk_index i)

done_inj : {r q : ChunkReportResult} → done r ≡ done q → r ≡ q
done_inj h = cc

-- Where every SELECT finds each row of its table once, a report that is accepted is about a row of
-- the chunk: it is valid exactly if its hash is the row's. Behind it the rows of the source have
-- one more valid report and one more point if it is valid, and one more invalid report and one
-- point less otherwise; every other row, the chunks and the signals stay as they were. The report
-- returns the peer of the source, with the score and the counters of a row of the source behind
-- it.
pub report_chunk-IsReported :
    (w : Server) (source : Text) (req : ChunkReportRequest) (db : Database) (r : ChunkReportResult)
    → IsFairServer w
    → (report_chunk w source req db).0 ≡ done r
    → IsReported w (trim_space source) req db r (report_chunk w source req db).1
report_chunk-IsReported w source req db r fair =
    report_chunk_outcome w db source req
      (λ x. x.0 ≡ done r → IsReported w (trim_space source) req db r x.1) (λ _ e. cc)
      λ p row _ _ m.
        let (listed, about) =
          In-keep (is_chunk (trim_space req.file_id) req.chunk_index) (w.chunk_order 1 db.chunks)
            m in
        (
          λ _ e. cc,
          λ q found e. rw (← done_inj e) (record {
            row = row;
            listed = In-perm (fair.chunk_perm 1 db.chunks) listed;
            file = eq_of_text_eq _ _ (is_chunk-file _ req.chunk_index row about);
            index = is_chunk-index (trim_space req.file_id) _ row about;
            expected = refl;
            valid = text_eq_iff _ row.expected_hash;
            delta = refl;
            state = counted_lem (has_id (trim_space source)) _ db;
            source_row = found.row;
            stored = In-perm (fair.peer_perm 3 _) found.listed;
            named = eq_of_text_eq _ _ found.passes;
            returned = ap (λ (p : Peer). p.id) found.scanned ∙ eq_of_text_eq _ _ found.passes;
            score = ap (λ (p : Peer). p.quality_score) found.scanned;
            quality = ap (λ (p : Peer). p.quality) found.scanned;
          }),
        )
