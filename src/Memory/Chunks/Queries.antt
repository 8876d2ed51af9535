-- ===== src/Memory/Chunks/Queries.antt =====
-- The methods of `MemoryStore` that list chunks, GetChunksByRecipient and GetChunksByFileID, and
-- the one that purges them, DeleteExpiredChunks.
use muninn.Prelude.{Bool, ◌&&◌, not, List, keep, map, length}
use muninn.Prelude.Int.{ℤ, pos, leb_ℤ, ltb_ℤ, add64}
use muninn.Text.{Text, text_eq, is_empty, trim_space}
use muninn.Model.{ChunkRecord}
use muninn.Outside.{Outside, unix_now}
use muninn.Hash.{parse_chunk_key}
use muninn.Score.{invalid_chunk}
use muninn.Exec.{Exec, pure, ◌>>=◌, ◌>>◌, reject_if, get, modify}
use muninn.Memory.{Memory, ChunkRecordEntry}

abbrev pub to_record : Text → ChunkRecordEntry → ChunkRecord
to_record file_id e = record {
  file_id = file_id;
  chunk_index = (parse_chunk_key e.chunk).1;
  sender_id = e.sender_id;
  recipient_id = e.recipient_id;
  hash = e.hash;
  peer_id = e.peer_id;
  persist = e.persist;
  confirmed = e.confirmed;
  readed = e.readed;
  created_at = e.created_at;
  updated_at = e.updated_at;
  ttl = e.ttl;
}

unfoldable pub get_chunks_by_recipient : Text → ℤ → Exec Memory (List ChunkRecord)
get_chunks_by_recipient recipient_id date_from = do
  let recipient_id = trim_space recipient_id
  reject_if (is_empty recipient_id) invalid_chunk
  s ← get
  pure (
      map (λ e. to_record (parse_chunk_key e.chunk).0 e)
        (keep (λ e. text_eq e.recipient_id recipient_id && leb_ℤ date_from e.updated_at) s.chunks))

unfoldable pub get_chunks_by_file_id : Text → Exec Memory (List ChunkRecord)
get_chunks_by_file_id file_id = do
  let file_id = trim_space file_id
  reject_if (is_empty file_id) invalid_chunk
  s ← get
  pure (map (to_record file_id) (keep (λ e. text_eq (parse_chunk_key e.chunk).0 file_id) s.chunks))

-- `entry.CreatedAt + int64(entry.TTL) < now`, for an entry that does not persist.
unfoldable pub is_chunk_expired : ℤ → ChunkRecordEntry → Bool
is_chunk_expired now e = not e.persist && ltb_ℤ (add64 e.created_at e.ttl) now

unfoldable pub delete_expired_chunks : Outside → Exec Memory ℤ
delete_expired_chunks o = do
  s ← get
  let now = unix_now o
  modify (λ s. record s { chunks = keep (λ e. not (is_chunk_expired now e)) s.chunks })
  pure (pos (length (keep (is_chunk_expired now) s.chunks)))
