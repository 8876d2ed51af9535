-- ===== src/Handler/Batches.antt =====
-- The batch handlers RegisterChunkBatch and ConfirmChunkBatch.
pub mod Prefix
use muninn.Prelude.{ℕ, zero, suc, Option, List, [], ◌∷◌}
use muninn.Prelude.Int.{pos}
use muninn.Text.{Text}
use muninn.Model.{
  RegisterChunkRequest, RegisterChunkBatchEntry, RegisterChunkBatchRequest, ConfirmChunkRequest,
  ConfirmChunkBatchEntry, ConfirmChunkBatchRequest,
}
use muninn.Outside.{Outside}
use muninn.Exec.{Result, ok, err, Exec}
use muninn.Handler.{Response, Handle, with_body, write_store_error, no_content}
use muninn.Handler.Interface.{Store}

-- The response and state behind a call of the loop, before and after the calls that follow it.
abbrev pub unless_failed : {S A : Type 0} → Result A → S → Response × S → Response × S
unless_failed (ok a) s rest = rest
unless_failed (err e) s rest = (write_store_error e, s)

-- The loop over the entries: it stops at the first error. The i-th call takes place at `o i`.
unfoldable pub all_calls :
    {S A E : Type 0} → (Outside → E → Exec S A) → (ℕ → Outside) → List E → Handle S
all_calls f o [] s = (no_content, s)
all_calls f o (e ∷ es) s =
    let (r, s') = f (o 0) e s in unless_failed r s' (all_calls f (λ i. o (suc i)) es s')

-- The request of an entry. The entry's time to live is left out.
abbrev pub entry_request : RegisterChunkBatchEntry → RegisterChunkRequest
entry_request e = record {
  sender_id = e.sender_id;
  recipient_id = e.recipient_id;
  hash = e.hash;
  signature = e.signature;
  peer_id = e.peer_id;
  persist = e.persist;
  ttl = pos 0;
}

abbrev pub confirm_request : Text → ConfirmChunkBatchEntry → ConfirmChunkRequest
confirm_request recipient_id e = record {
  recipient_id = recipient_id;
  file_id = e.file_id;
  chunk_index = e.chunk_index;
  hash = e.hash;
  signature = e.signature;
}

module _ {S : Type 0} (st : Store S) (o : ℕ → Outside) where
  unfoldable pub handle_register_chunk_batch : Text → Option RegisterChunkBatchRequest → Handle S
  handle_register_chunk_batch file_id body = with_body body λ req.
      all_calls (λ o e. st.set_chunk_hash o file_id e.chunk_index (entry_request e)) o req.chunks

  unfoldable pub handle_confirm_chunk_batch : Option ConfirmChunkBatchRequest → Handle S
  handle_confirm_chunk_batch body =
      with_body body λ req.
        all_calls (λ o e. st.confirm_chunk o (confirm_request req.recipient_id e)) o req.chunks
