-- ===== src/Database/Reports.antt =====
-- The methods of `dbStore` by which a recipient answers for a chunk: ReportChunk, ConfirmChunk and
-- ReadChunk. `driver` is the field of `dbStore`.
use muninn.Prelude.{Bool, true, false, ◌&&◌, ◌||◌, not, List, if◌then◌else◌, keep}
use muninn.Prelude.Int.{ℤ, pos, ◌+ℤ◌, eqb_ℤ}
use muninn.Text.{Text, codes, text_eq, is_empty, trim_space}
use muninn.Model.{
  ChunkReportRequest, ChunkReportResult, ConfirmChunkRequest, ConfirmChunkResult, ReadChunkRequest,
  ReadChunkResult,
}
use muninn.Hash.{normalize_hash}
use muninn.Sign.{reported_payload, confirmed_payload, read_payload}
use muninn.Score.{not_found, invalid_chunk, chunk_not_found}
use muninn.Memory.{verify_peer_signature}
use muninn.Memory.Chunks.{bad_hash, bad_index, delta_of}
use muninn.Action.{
  Action, pure, ◌>>=◌, ◌>>◌, reject_if, require, check, or_panic, get, modify, wrap, replace_error,
}
use muninn.Database.{
  Database, PeerRow, ChunkRow, Server, statement, update_where, first_row, has_id, get_peer_by_id,
  get_peer_by_key,
}
use muninn.Database.Chunks.{column, known_driver}

-- The UPDATE that counts a report. The columns hold the sums, which are taken to fit.
abbrev pub count_row : Bool → PeerRow → PeerRow
count_row valid row = record row {
  quality_score = row.quality_score +ℤ delta_of valid;
  quality_valid = row.quality_valid +ℤ column valid;
  quality_invalid = row.quality_invalid +ℤ column (not valid);
}

abbrev pub is_chunk : Text → ℤ → ChunkRow → Bool
is_chunk file_id chunk_index row = text_eq row.file_id file_id && eqb_ℤ row.chunk_index chunk_index

unfoldable pub report_chunk : Server → Text → ChunkReportRequest → Action Database ChunkReportResult
report_chunk w source_peer_id req = do
  let source_peer_id = trim_space source_peer_id
  let file_id = trim_space req.file_id
  let reported = normalize_hash w.outside.lower_wide req.hash
  reject_if
      (is_empty source_peer_id
        || is_empty (trim_space req.reporter_id)
        || is_empty file_id
        || bad_hash reported
        || bad_index req.chunk_index
        || is_empty (trim_space req.signature))
      invalid_chunk
  reporter ← replace_error not_found (get_peer_by_id w 0 (trim_space req.reporter_id))
  check (
      verify_peer_signature w.outside reporter req.signature
        (reported_payload file_id req.chunk_index reported source_peer_id))
  statement w 1 "get chunk: "
  db ← get
  row ←
      require (first_row (keep (is_chunk file_id req.chunk_index) (w.chunk_order 1 db.chunks)))
        chunk_not_found
  let valid = text_eq reported row.expected_hash
  statement w 2 "update quality: "
  modify
      (λ db. record db { peers = update_where (has_id source_peer_id) (count_row valid) db.peers })
  peer ← wrap (codes "get updated peer: ") (get_peer_by_id w 3 source_peer_id)
  pure (record {
    valid = valid;
    expected_hash = row.expected_hash;
    reported_hash = reported;
    delta = delta_of valid;
    peer = peer;
  })

abbrev pub is_addressed : Text → ℤ → Text → ChunkRow → Bool
is_addressed file_id chunk_index recipient_key row =
    is_chunk file_id chunk_index row && text_eq row.recipient_id recipient_key

abbrev pub confirm_row : ℤ → ChunkRow → ChunkRow
confirm_row clock row = record row { confirmed = pos 1; updated_at = clock }

abbrev pub confirm_rows : Text → (ChunkRow → Bool) → ℤ → List ChunkRow → List ChunkRow
confirm_rows driver test clock rows =
    if known_driver driver then update_where test (confirm_row clock) rows else rows

-- The UPDATE of a valid confirmation.
unfoldable pub confirm_if : Server → Text → Bool → (ChunkRow → Bool) → Action Database (Unit {0})
confirm_if w driver true test = do
  statement w 3 "update confirmed: "
  modify (λ db. record db { chunks = confirm_rows driver test w.clock db.chunks })
confirm_if w driver false test = pure tt

abbrev pub holds_key : Text → PeerRow → Bool
holds_key key row = text_eq row.key key

unfoldable pub confirm_chunk :
    Server → Text → ConfirmChunkRequest → Action Database ConfirmChunkResult
confirm_chunk w driver req = do
  let recipient_key = trim_space req.recipient_id
  let file_id = trim_space req.file_id
  let confirmed = normalize_hash w.outside.lower_wide req.hash
  reject_if
      (is_empty file_id
        || bad_hash confirmed
        || bad_index req.chunk_index
        || is_empty (trim_space req.signature))
      invalid_chunk
  recipients ← replace_error not_found (get_peer_by_key w 0 recipient_key)
  recipient ← or_panic (first_row recipients)
  check (
      verify_peer_signature w.outside recipient req.signature
        (confirmed_payload file_id req.chunk_index confirmed))
  let addressed = is_addressed file_id req.chunk_index recipient_key
  statement w 1 "get chunk: "
  db ← get
  row ← require (first_row (keep addressed (w.chunk_order 1 db.chunks))) chunk_not_found
  let valid = text_eq confirmed row.expected_hash
  statement w 2 "update quality: "
  modify (λ db. record db {
    peers = update_where (holds_key row.sender_id) (count_row valid) db.peers;
  })
  confirm_if w driver valid addressed
  senders ← wrap (codes "get updated peer: ") (get_peer_by_key w 4 row.sender_id)
  sender ← or_panic (first_row senders)
  pure (record {
    valid = valid;
    expected_hash = row.expected_hash;
    confirmed_hash = confirmed;
    delta = delta_of valid;
    peer = sender;
  })

abbrev pub is_message : Text → Text → ChunkRow → Bool
is_message file_id recipient_key row =
    text_eq row.file_id file_id && text_eq row.recipient_id recipient_key

abbrev pub read_row : ℤ → ChunkRow → ChunkRow
read_row clock row = record row { readed = pos 1; updated_at = clock }

abbrev pub read_rows : Text → (ChunkRow → Bool) → ℤ → List ChunkRow → List ChunkRow
read_rows driver test clock rows =
    if known_driver driver then update_where test (read_row clock) rows else rows

unfoldable pub read_chunk : Server → Text → ReadChunkRequest → Action Database ReadChunkResult
read_chunk w driver req = do
  let recipient_key = trim_space req.recipient_id
  let file_id = trim_space req.file_id
  reject_if (is_empty file_id || is_empty (trim_space req.signature)) invalid_chunk
  recipients ← replace_error not_found (get_peer_by_key w 0 recipient_key)
  recipient ← or_panic (first_row recipients)
  check (verify_peer_signature w.outside recipient req.signature (read_payload file_id))
  statement w 1 "update readed: "
  modify (λ db. record db {
    chunks = read_rows driver (is_message file_id recipient_key) w.clock db.chunks;
  })
  pure (record { valid = true })
