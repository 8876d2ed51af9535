-- ===== src/Database/Chunks.antt =====
-- The methods of `dbStore` that register, list and purge chunks: SetChunkHash,
-- GetChunksByRecipient, GetChunksByFileID and DeleteExpiredChunks. `driver` is the field of
-- `dbStore`.
use muninn.Prelude.{Bool, ◌&&◌, ◌||◌, not, List, [], ◌∷◌, ◌++◌, if◌then◌else◌, keep, map, length}
use muninn.Prelude.Int.{ℤ, pos, ◌+ℤ◌, leb_ℤ, ltb_ℤ, eqb_ℤ}
use muninn.Text.{Text, codes, text_eq, is_empty, trim_space}
use muninn.Model.{RegisterChunkRequest, ChunkRecord}
use muninn.Outside.{Outside, unix_now}
use muninn.Hash.{normalize_hash}
use muninn.Sign.{expected_payload}
use muninn.Score.{not_found, invalid_chunk}
use muninn.Memory.{positive_or, default_chunk_ttl, verify_peer_signature}
use muninn.Memory.Chunks.{bad_hash, bad_index}
use muninn.Action.{
  Action, pure, ◌>>=◌, ◌>>◌, reject_if, check, or_panic, get, modify, replace_error,
}
use muninn.Database.{
  Database, ChunkRow, Server, statement, delete_where, first_row, get_peer_by_key,
}

abbrev pub column : Bool → ℤ
column b = if b then pos 1 else pos 0

-- The row that SetChunkHash inserts.
abbrev pub chunk_row : Outside → Text → ℤ → RegisterChunkRequest → ChunkRow
chunk_row o file_id chunk_index req = record {
  file_id = trim_space file_id;
  chunk_index = chunk_index;
  expected_hash = normalize_hash o.lower_wide req.hash;
  sender_id = trim_space req.sender_id;
  recipient_id = trim_space req.recipient_id;
  holder_peer_id = trim_space req.peer_id;
  persist = column req.persist;
  confirmed = pos 0;
  readed = pos 0;
  created_at = unix_now o;
  updated_at = unix_now o;
  ttl = positive_or default_chunk_ttl req.ttl;
}

-- The recipient may be empty here.
unfoldable pub set_chunk_hash :
    Server → Text → ℤ → RegisterChunkRequest → Action Database (Unit {0})
set_chunk_hash w file_id chunk_index req = do
  let hash = normalize_hash w.outside.lower_wide req.hash
  reject_if
      (is_empty (trim_space file_id)
        || is_empty (trim_space req.sender_id)
        || is_empty (trim_space req.peer_id)
        || bad_hash hash
        || bad_index chunk_index
        || is_empty (trim_space req.signature))
      invalid_chunk
  senders ← replace_error not_found (get_peer_by_key w 0 (trim_space req.sender_id))
  sender ← or_panic (first_row senders)
  check (
      verify_peer_signature w.outside sender req.signature
        (expected_payload (trim_space file_id) chunk_index hash))
  statement w 1 "set chunk hash: "
  modify
      (λ db. record db { chunks = db.chunks ++ chunk_row w.outside file_id chunk_index req ∷ [] })

abbrev pub scan_chunk : ChunkRow → ChunkRecord
scan_chunk row = record {
  file_id = row.file_id;
  chunk_index = row.chunk_index;
  sender_id = row.sender_id;
  recipient_id = row.recipient_id;
  hash = row.expected_hash;
  peer_id = row.holder_peer_id;
  persist = not (eqb_ℤ row.persist (pos 0));
  confirmed = not (eqb_ℤ row.confirmed (pos 0));
  readed = not (eqb_ℤ row.readed (pos 0));
  created_at = row.created_at;
  updated_at = row.updated_at;
  ttl = row.ttl;
}

abbrev pub is_since : Text → ℤ → ChunkRow → Bool
is_since recipient_id date_from row =
    text_eq row.recipient_id recipient_id && leb_ℤ date_from row.updated_at

unfoldable pub get_chunks_by_recipient : Server → Text → ℤ → Action Database (List ChunkRecord)
get_chunks_by_recipient w recipient_id date_from = do
  let recipient_id = trim_space recipient_id
  reject_if (is_empty recipient_id) invalid_chunk
  statement w 0 "get chunks by recipient: "
  db ← get
  pure (map scan_chunk (keep (is_since recipient_id date_from) (w.chunk_order 0 db.chunks)))

abbrev pub is_of_file : Text → ChunkRow → Bool
is_of_file file_id row = text_eq row.file_id file_id

unfoldable pub get_chunks_by_file_id : Server → Text → Action Database (List ChunkRecord)
get_chunks_by_file_id w file_id = do
  let file_id = trim_space file_id
  reject_if (is_empty file_id) invalid_chunk
  statement w 0 "get chunks by recipient: "
  db ← get
  pure (map scan_chunk (keep (is_of_file file_id) (w.chunk_order 0 db.chunks)))

-- `switch s.driver`: for any other driver the statement is empty.
abbrev pub known_driver : Text → Bool
known_driver driver = text_eq driver (codes "pgx") || text_eq driver (codes "sqlite")

abbrev pub is_expired_row : ℤ → ChunkRow → Bool
is_expired_row clock row = eqb_ℤ row.persist (pos 0) && ltb_ℤ (row.created_at +ℤ row.ttl) clock

-- The rows that the DELETE names; none for any other driver.
abbrev pub purged : Text → ℤ → ChunkRow → Bool
purged driver clock row = known_driver driver && is_expired_row clock row

-- The second DELETE names a column that the table of signals does not have: it fails, unnoticed.
unfoldable pub delete_expired_chunks : Server → Text → Action Database ℤ
delete_expired_chunks w driver = do
  statement w 0 "delete expired chunks: "
  db ← get
  modify (λ db. record db { chunks = delete_where (purged driver w.clock) db.chunks })
  pure (pos (length (keep (purged driver w.clock) db.chunks)))
