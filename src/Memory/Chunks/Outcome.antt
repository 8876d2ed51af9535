-- ===== src/Memory/Chunks/Outcome.antt =====
-- The outcomes of the methods on chunks: an error that leaves the state as it was, or success with
-- the facts that the guards have established.
use muninn.Prelude.{◌≡◌, true, false, none, some, [], ◌∷◌, ◌++◌, ◌||◌, arith}
use muninn.Prelude.Int.{ℤ}
use muninn.Text.{Text, is_empty, trim_space}
use muninn.Model.{Peer, RegisterChunkRequest}
use muninn.Outside.{Outside, unix_now}
use muninn.Hash.{normalize_hash, valid_hash_format, chunk_key}
use muninn.Sign.{expected_payload}
use muninn.Score.{Error}
use muninn.Exec.{Result, ok, err}
use muninn.Exec.Rules.{after_reject, after_check, after_require, after_get, after_last_modify}
use muninn.Memory.{
  Memory, ChunkRecordEntry, positive_or, default_chunk_ttl, peer_by_key, verify_peer_signature,
}
use muninn.Memory.Chunks.{set_chunk_hash, bad_hash, bad_index}

-- The entry that `SetChunkHash` appends.
abbrev pub new_entry : Outside → Text → ℤ → RegisterChunkRequest → ChunkRecordEntry
new_entry o file_id chunk_index req = record {
  chunk = chunk_key (trim_space file_id) chunk_index;
  hash = normalize_hash o.lower_wide req.hash;
  sender_id = trim_space req.sender_id;
  recipient_id = trim_space req.recipient_id;
  peer_id = trim_space req.peer_id;
  persist = req.persist;
  confirmed = false;
  readed = false;
  created_at = unix_now o;
  updated_at = unix_now o;
  ttl = positive_or default_chunk_ttl req.ttl;
}

-- What the first guard of `SetChunkHash` establishes.
pub record IsChunkRequest (o : Outside) (file_id : Text) (chunk_index : ℤ)
    (req : RegisterChunkRequest) : Type 0 where
  pub file : is_empty (trim_space file_id) ≡ false
  pub sender : is_empty (trim_space req.sender_id) ≡ false
  pub recipient : is_empty (trim_space req.recipient_id) ≡ false
  pub peer : is_empty (trim_space req.peer_id) ≡ false
  pub format : valid_hash_format (normalize_hash o.lower_wide req.hash) ≡ true
  pub index : bad_index chunk_index ≡ false
  pub signature : is_empty (trim_space req.signature) ≡ false

module _ (o : Outside) (file_id : Text) (chunk_index : ℤ) (req : RegisterChunkRequest)
    (s : Memory) where
  request_guard :
      (is_empty (trim_space file_id)
          || is_empty (trim_space req.sender_id)
          || is_empty (trim_space req.recipient_id)
          || is_empty (trim_space req.peer_id)
          || bad_hash (normalize_hash o.lower_wide req.hash)
          || bad_index chunk_index
          || is_empty (trim_space req.signature))
        ≡ false
      → IsChunkRequest o file_id chunk_index req
  request_guard h = ground arith

  pub set_chunk_hash_outcome {ℓ} :
      (Q : Result (Unit {0}) × Memory → Type ℓ)
      → ((e : Error) → Q (err e, s))
      → ((sender : Peer)
          → IsChunkRequest o file_id chunk_index req
          → peer_by_key o 0 (trim_space req.sender_id) s ≡ some sender
          → verify_peer_signature o sender req.signature (
              expected_payload
                (trim_space file_id)
                chunk_index
                (normalize_hash o.lower_wide req.hash))
            ≡ none
          → Q (ok tt, record s { chunks = s.chunks ++ new_entry o file_id chunk_index req ∷ [] }))
      → Q (set_chunk_hash o file_id chunk_index req s)
  unfolding set_chunk_hash
  set_chunk_hash_outcome Q fail done =
      after_reject Q _ _ s (λ _. fail _)
        λ good. after_get Q _ s (
          after_require Q _ _ s (λ _. fail _)
            λ sender found.
              after_check Q _ _ s (λ e _. fail e)
                λ signed. after_last_modify Q _ s (done sender (request_guard good) found signed))
