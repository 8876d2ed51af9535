-- ===== src/Database/Outcome/Chunks.antt =====
-- The outcomes of the methods of `dbStore` that register, list and purge chunks. A method that
-- asks for a key panics on a key without a colon.
use muninn.Prelude.{◌≡◌, Bool, false, none, List, [], ◌∷◌, ◌||◌, ◌++◌, keep, map, length}
use muninn.Prelude.Int.{ℤ, pos}
use muninn.Text.{Text, trim_space, is_empty}
use muninn.Model.{Peer, RegisterChunkRequest, ChunkRecord}
use muninn.Hash.{normalize_hash}
use muninn.Sign.{expected_payload}
use muninn.Score.{Error}
use muninn.Memory.{verify_peer_signature}
use muninn.Memory.Chunks.{bad_hash, bad_index}
use muninn.Action.{Reply, done, failed, panicked}
use muninn.Action.Rules.{
  after_check, after_reject, after_get, after_pure, after_modify, after_last_modify,
}
use muninn.Database.{Database, ChunkRow, PeerRow, Server, delete_where}
use muninn.Database.Outcome.{after_statement, IsFoundByKey, after_peer_by_key}
use muninn.Database.Chunks.{
  chunk_row, set_chunk_hash, scan_chunk, is_since, get_chunks_by_recipient, is_of_file,
  get_chunks_by_file_id, purged, delete_expired_chunks,
}

-- The tables with other rows of peers, or of chunks.
abbrev pub with_peers : Database → List PeerRow → Database
with_peers db rows = record db { peers = rows }

abbrev pub with_chunks : Database → List ChunkRow → Database
with_chunks db rows = record db { chunks = rows }

-- A chunk, as SetChunkHash asks for it.
abbrev pub refuses_chunk : Server → Text → ℤ → RegisterChunkRequest → Bool
refuses_chunk w file_id chunk_index req =
    is_empty (trim_space file_id)
    || is_empty (trim_space req.sender_id)
    || is_empty (trim_space req.peer_id)
    || bad_hash (normalize_hash w.outside.lower_wide req.hash)
    || bad_index chunk_index
    || is_empty (trim_space req.signature)

module _ {ℓ} (w : Server) (db : Database) where
  pub set_chunk_hash_outcome :
      (file_id : Text) (chunk_index : ℤ) (req : RegisterChunkRequest)
      (Q : Reply (Unit {0}) × Database → Type ℓ)
      → ((e : Error) → Q (failed e, db))
      → Q (panicked, db)
      → ((p : Peer)
          → refuses_chunk w file_id chunk_index req ≡ false
          → IsFoundByKey w 0 (trim_space req.sender_id) db p
          → verify_peer_signature w.outside p req.signature (
              expected_payload
                (trim_space file_id)
                chunk_index
                (normalize_hash w.outside.lower_wide req.hash))
            ≡ none
          → Q (
            done tt,
            with_chunks db (db.chunks ++ chunk_row w.outside file_id chunk_index req ∷ []),
          ))
      → Q (set_chunk_hash w file_id chunk_index req db)
  unfolding set_chunk_hash
  set_chunk_hash_outcome file_id chunk_index req Q fail panic go =
      after_reject Q _ _ db (λ _. fail _)
        λ fit. after_peer_by_key Q w 0 (trim_space req.sender_id) db _ _ (fail _) panic λ p found.
          after_check Q _ _ db (λ e _. fail e)
            λ signed.
              after_statement Q w 1 _ _ db fail (after_last_modify Q _ db (go p fit found signed))

  pub delete_expired_chunks_outcome :
      (driver : Text) (Q : Reply ℤ × Database → Type ℓ)
      → ((e : Error) → Q (failed e, db))
      → Q (
        done (pos (length (keep (purged driver w.clock) db.chunks))),
        with_chunks db (delete_where (purged driver w.clock) db.chunks),
      )
      → Q (delete_expired_chunks w driver db)
  unfolding delete_expired_chunks
  delete_expired_chunks_outcome driver Q fail go =
      after_statement Q w 0 _ _ db fail
        (after_get Q _ db (after_modify Q _ _ db (after_pure Q _ _ go)))

  pub get_chunks_by_recipient_outcome :
      (recipient_id : Text) (date_from : ℤ) (Q : Reply (List ChunkRecord) × Database → Type ℓ)
      → ((e : Error) → Q (failed e, db))
      → Q (
        done (
            map scan_chunk
              (keep (is_since (trim_space recipient_id) date_from) (w.chunk_order 0 db.chunks))),
        db,
      )
      → Q (get_chunks_by_recipient w recipient_id date_from db)
  unfolding get_chunks_by_recipient
  get_chunks_by_recipient_outcome recipient_id date_from Q fail go =
      after_reject Q _ _ db (λ _. fail _)
        λ _. after_statement Q w 0 _ _ db fail (after_get Q _ db (after_pure Q _ db go))

  pub get_chunks_by_file_id_outcome :
      (file_id : Text) (Q : Reply (List ChunkRecord) × Database → Type ℓ)
      → ((e : Error) → Q (failed e, db))
      → Q (
        done (map scan_chunk (keep (is_of_file (trim_space file_id)) (w.chunk_order 0 db.chunks))),
        db,
      )
      → Q (get_chunks_by_file_id w file_id db)
  unfolding get_chunks_by_file_id
  get_chunks_by_file_id_outcome file_id Q fail go =
      after_reject Q _ _ db (λ _. fail _)
        λ _. after_statement Q w 0 _ _ db fail (after_get Q _ db (after_pure Q _ db go))
