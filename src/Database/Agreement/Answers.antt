-- ===== src/Database/Agreement/Answers.antt =====
-- What the methods on lists of chunks return where no statement fails.
use muninn.Prelude.{ℕ, ◌≡◌, refl, false, none, keep, map, length}
use muninn.Prelude.Int.{ℤ, pos}
use muninn.Text.{Text, is_empty, trim_space}
use muninn.Action.{done, ◌>>=◌, continue, pure, reject_if, check, get, modify}
use muninn.Database.{Database, Server, statement, delete_where}
use muninn.Database.Chunks.{
  scan_chunk, is_since, is_of_file, purged, get_chunks_by_recipient, get_chunks_by_file_id,
  delete_expired_chunks,
}

module _ (w : Server) (db : Database) (passes : (i : ℕ) → w.fails i ≡ none) where
  pub get_chunks_by_file_id-done :
      (id : Text)
      → is_empty (trim_space id) ≡ false
      → get_chunks_by_file_id w id db ≡ (
        done (map scan_chunk (keep (is_of_file (trim_space id)) (w.chunk_order 0 db.chunks))),
        db,
      )
  unfolding get_chunks_by_file_id statement ◌>>=◌ continue pure reject_if check get
  get_chunks_by_file_id-done id named = rw (named, passes 0) refl

  pub get_chunks_by_recipient-done :
      (id : Text) (from : ℤ)
      → is_empty (trim_space id) ≡ false
      → get_chunks_by_recipient w id from db ≡ (
        done (map scan_chunk (keep (is_since (trim_space id) from) (w.chunk_order 0 db.chunks))),
        db,
      )
  unfolding get_chunks_by_recipient statement ◌>>=◌ continue pure reject_if check get
  get_chunks_by_recipient-done id from named = rw (named, passes 0) refl

  pub delete_expired_chunks-done :
      (driver : Text)
      → delete_expired_chunks w driver db ≡ (
        done (pos (length (keep (purged driver w.clock) db.chunks))),
        record db { chunks = delete_where (purged driver w.clock) db.chunks },
      )
  unfolding delete_expired_chunks statement ◌>>=◌ continue pure check get modify
  delete_expired_chunks-done driver = rw (passes 0) refl
