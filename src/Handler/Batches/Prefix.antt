-- ===== src/Handler/Batches/Prefix.antt =====
-- What a batch of chunks leaves in the memory store.
use muninn.Prelude.{
  ℕ, suc, ◌≡◌, refl, some, List, [], ◌∷◌, ◌++◌, length, false, ◌≤◌, arith, inl, inr, ◌⊎◌, ap, sym,
  ◌∙◌, All, append-nil, append_assoc,
}
use muninn.Prelude.Int.{pos}
use muninn.Text.{Text, trim_space}
use muninn.Model.{RegisterChunkBatchEntry, RegisterChunkBatchRequest}
use muninn.Outside.{Outside, unix_now}
use muninn.Score.{Error}
use muninn.Exec.{Exec, err}
use muninn.Hash.{chunk_key, normalize_hash}
use muninn.Memory.{Memory, ChunkRecordEntry}
use muninn.Memory.Chunks.{set_chunk_hash}
use muninn.Memory.Chunks.Outcome.{new_entry, set_chunk_hash_outcome}
use muninn.Handler.{error_response, root, error_text, Response, write_store_error, with_body}
use muninn.Handler.Interface.{memory_store}
use muninn.Handler.Batches.{all_calls, unless_failed, entry_request, handle_register_chunk_batch}

-- The entries that a part of a batch adds, the i-th one at `o i`, field by field.
abbrev pub batch_entries :
    (ℕ → Outside) → Text → List RegisterChunkBatchEntry → List ChunkRecordEntry
batch_entries o file_id [] = []
batch_entries o file_id (e ∷ es) =
    record {
      chunk = chunk_key (trim_space file_id) e.chunk_index;
      hash = normalize_hash (o 0).lower_wide e.hash;
      sender_id = trim_space e.sender_id;
      recipient_id = trim_space e.recipient_id;
      peer_id = trim_space e.peer_id;
      persist = e.persist;
      confirmed = false;
      readed = false;
      created_at = unix_now (o 0);
      updated_at = unix_now (o 0);
      ttl = pos 86400;
    }
    ∷ batch_entries (λ i. o (suc i)) file_id es

-- A batch that has stopped at `now` with the response and state `r` before the entries `rest`: the
-- store has refused the first of them, and the response is that of its error.
pub record IsStopped (now : Outside) (file_id : Text) (rest : List RegisterChunkBatchEntry)
    (r : Response × Memory) : Type 0 where
  pub next : RegisterChunkBatchEntry
  pub others : List RegisterChunkBatchEntry
  pub parts : rest ≡ next ∷ others
  pub failure : Error
  pub refused :
      set_chunk_hash now file_id next.chunk_index
        (record {
          sender_id = next.sender_id;
          recipient_id = next.recipient_id;
          hash = next.hash;
          signature = next.signature;
          peer_id = next.peer_id;
          persist = next.persist;
          ttl = pos 0;
        })
        r.1
      ≡ (err failure, r.1)
  pub response : r.0 ≡ write_store_error failure
  pub status : 400 ≤ r.0.status

-- The response and state `r` of a batch on the state `s`: the part of the list whose entries were
-- added, the rest, and how the batch has ended.
pub record IsPrefixRun (o : ℕ → Outside) (file_id : Text) (es : List RegisterChunkBatchEntry)
    (s : Memory) (r : Response × Memory) : Type 0 where
  pub accepted : List RegisterChunkBatchEntry
  pub rest : List RegisterChunkBatchEntry
  pub parts : es ≡ accepted ++ rest
  pub stored : r.1 ≡ record s { chunks = s.chunks ++ batch_entries o file_id accepted }
  pub ttl : All (λ (c : ChunkRecordEntry). c.ttl ≡ pos 86400) (batch_entries o file_id accepted)
  pub ending : ((r.0.status ≡ 204) × (rest ≡ [])) ⊎ IsStopped (o (length accepted)) file_id rest r

error_response_status : (e : Error) (msg : Text) → 400 ≤ (error_response e msg).status
unfolding error_response
error_response_status Error.not_found msg = omega arith
error_response_status Error.invalid_peer msg = omega arith
error_response_status Error.invalid_key msg = omega arith
error_response_status Error.key_taken msg = omega arith
error_response_status Error.invalid_chunk msg = omega arith
error_response_status Error.chunk_not_found msg = omega arith
error_response_status Error.invalid_signature msg = omega arith
error_response_status Error.no_signing_key msg = omega arith
error_response_status Error.no_pending_messages msg = omega arith
error_response_status (Error.other text) msg = omega arith
error_response_status (Error.wrapped context e) msg = omega arith

refused_status : (e : Error) → 400 ≤ (write_store_error e).status
unfolding write_store_error
refused_status e = error_response_status (root e) (error_text e)

batch_ttl :
    (o : ℕ → Outside) (file_id : Text) (es : List RegisterChunkBatchEntry)
    → All (λ (c : ChunkRecordEntry). c.ttl ≡ pos 86400) (batch_entries o file_id es)
batch_ttl o file_id [] = tt
batch_ttl o file_id (e ∷ es) = (refl, batch_ttl (λ i. o (suc i)) file_id es)

unchanged : (s : Memory) → s ≡ record s { chunks = s.chunks ++ [] }
unchanged s =
    sym (ap (λ (cs : List ChunkRecordEntry). record s { chunks = cs }) (append-nil s.chunks))

module _ (file_id : Text) where
  stored_later :
      (o : ℕ → Outside) (e : RegisterChunkBatchEntry) (es : List RegisterChunkBatchEntry)
      (s : Memory) (r : Response × Memory)
      → IsPrefixRun
          (λ i. o (suc i))
          file_id
          es
          (record s {
            chunks = s.chunks ++ new_entry (o 0) file_id e.chunk_index (entry_request e) ∷ [];
          })
          r
      → IsPrefixRun o file_id (e ∷ es) s r
  stored_later o e es s r h = record {
    accepted = e ∷ h.accepted;
    rest = h.rest;
    parts = ap (λ l. e ∷ l) h.parts;
    stored =
        h.stored
        ∙ ap (λ (cs : List ChunkRecordEntry). record s { chunks = cs }) (append_assoc s.chunks _ _);
    ttl = (refl, h.ttl);
    ending = h.ending;
  }

  run-IsPrefixRun :
      (o : ℕ → Outside) (es : List RegisterChunkBatchEntry) (s : Memory)
      → IsPrefixRun o file_id es s
          (all_calls (λ o e. set_chunk_hash o file_id e.chunk_index (entry_request e)) o es s)
  unfolding all_calls
  run-IsPrefixRun o [] s = record {
    accepted = [];
    rest = [];
    parts = refl;
    stored = unchanged s;
    ttl = tt;
    ending = inl (refl, refl);
  }
  run-IsPrefixRun o (e ∷ es) s =
      let f : Outside → RegisterChunkBatchEntry → Exec Memory (Unit {0}) =
        λ o e. set_chunk_hash o file_id e.chunk_index (entry_request e) in
      set_chunk_hash_outcome (o 0) file_id e.chunk_index (entry_request e) s
        (λ r.
          f (o 0) e s ≡ r
          → IsPrefixRun o file_id (e ∷ es) s
              (unless_failed r.0 r.1 (all_calls f (λ i. o (suc i)) es r.1)))
        (λ failure refused. record {
          accepted = [];
          rest = e ∷ es;
          parts = refl;
          stored = unchanged s;
          ttl = tt;
          ending = inr (record {
            next = e;
            others = es;
            parts = refl;
            failure = failure;
            refused = refused;
            response = refl;
            status = refused_status failure;
          });
        })
        (λ _ _ _ _ _. stored_later o e es s _ (run-IsPrefixRun (λ i. o (suc i)) es _)) refl

-- A batch of chunks is stored entry by entry: over the memory store it adds the entries of a first
-- part of its list, each with its index, normalised hash, trimmed sender, recipient and peer, and
-- mark to persist, and with a time to live of one day, whatever the batch asks for. If that is the
-- whole list, the status is 204. Otherwise SetChunkHash refuses the entry that comes next on the
-- state that is left, and the response is that of its error, with a status of 400 or more.
pub handle_register_chunk_batch-IsPrefixRun :
    (o : ℕ → Outside) (file_id : Text) (req : RegisterChunkBatchRequest) (s : Memory)
    → IsPrefixRun o file_id req.chunks s
        (handle_register_chunk_batch memory_store o file_id (some req) s)
unfolding handle_register_chunk_batch with_body
handle_register_chunk_batch-IsPrefixRun o file_id req s = run-IsPrefixRun file_id o req.chunks s
