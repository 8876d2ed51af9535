-- ===== src/Memory/Guards.antt =====
-- Errors and signatures: what a refused call leaves, and what an accepted one has shown.
pub mod Signed
use muninn.Prelude.{
  ◌≡◌, refl, Bool, true, false, not, Option, none, some, List, [], ◌∷◌, arith, Bool-cases, inl, inr,
  if◌then◌else◌, sym, ap, ◌||◌,
}
use muninn.Prelude.Int.{ℤ}
use muninn.Text.{Text, text_eq, trim_space}
use muninn.Text.Equality.{text_eq_iff}
use muninn.Model.{Peer}
use muninn.Outside.{Outside, unix_now}
use muninn.Hash.{normalize_hash}
use muninn.Sign.{expected_payload, reported_payload, confirmed_payload, read_payload, verify}
use muninn.Sign.Verify.{IsSignature, verify_sound}
use muninn.Score.{Error}
use muninn.Assoc.{find}
use muninn.Exec.{Result, ok, err}
use muninn.Memory.{Memory, ChunkRecordEntry, peer_by_key, verify_peer_signature, store_error}
use muninn.Memory.Peers
use muninn.Memory.Ranking
use muninn.Memory.Chunks
use muninn.Memory.Signals
use muninn.Memory.Chunks.{mark_read, any}
use muninn.Memory.Peers.Outcome.{upsert_outcome, refresh_outcome, delete_outcome, heartbeat_outcome}
use muninn.Memory.Chunks.Outcome.{set_chunk_hash_outcome}
use muninn.Memory.Chunks.Reports.{
  report_chunk_outcome, confirm_chunk_outcome, read_chunk_outcome, is_read_message, after_read,
}
use muninn.Memory.Signals.Outcome.{
  set_signal_outcome, poll_signals_outcome, delete_expired_chunks_outcome,
}
use muninn.Memory.Queries
use muninn.Memory.Calls.{Call, step}

abbrev pub error_of : {A : Type 0} → Result A → Option Error
error_of (ok a) = none
error_of (err e) = some e

-- The error that a call returns, if it returns one.
abbrev pub reply_error : Outside → Call → Memory → Option Error
reply_error o (Call.upsert req) s = error_of (Peers.upsert o req s).0
reply_error o (Call.refresh req) s = error_of (Peers.refresh o req s).0
reply_error o (Call.get id) s = error_of (Peers.get_peer o id s).0
reply_error o (Call.get_by_key login signature) s =
    error_of (Peers.get_by_key o login signature s).0
reply_error o (Call.delete id) s = error_of (Peers.delete id s).0
reply_error o Call.list s = error_of (Peers.list o s).0
reply_error o (Call.heartbeat id ttl) s = error_of (Peers.heartbeat o id ttl s).0
reply_error o (Call.set_chunk_hash f i req) s = error_of (Chunks.set_chunk_hash o f i req s).0
reply_error o (Call.get_best_peers n) s = error_of (Ranking.get_best_peers o n s).0
reply_error o (Call.report_chunk id req) s = error_of (Chunks.report_chunk o id req s).0
reply_error o (Call.confirm_chunk req) s = error_of (Chunks.confirm_chunk o req s).0
reply_error o (Call.read_chunk req) s = error_of (Chunks.read_chunk o req s).0
reply_error o (Call.get_chunks_by_recipient id from) s =
    error_of (Chunks.get_chunks_by_recipient id from s).0
reply_error o (Call.get_chunks_by_file_id id) s = error_of (Chunks.get_chunks_by_file_id id s).0
reply_error o (Call.get_best_thick_peers n) s = error_of (Ranking.get_best_thick_peers o n s).0
reply_error o (Call.set_signal id sig) s = error_of (Signals.set_signal id sig s).0
reply_error o (Call.poll_signals id) s = error_of (Signals.poll_signals id s).0
reply_error o Call.delete_expired_chunks s = error_of (Chunks.delete_expired_chunks o s).0

-- the loop of `ReadChunk` changes nothing where no entry passes its test
mark_read_none :
    (test : ChunkRecordEntry → Bool) (now : ℤ) (es : List ChunkRecordEntry)
    → any test es ≡ false
    → mark_read test now es ≡ es
unfolding mark_read any
mark_read_none test now [] h = refl
mark_read_none test now (e ∷ es) h = ground (arith, mark_read_none test now es)

-- The state is the old one, or there was no error.
abbrev Kept : {A : Type 0} → Memory → Error → Result A × Memory → Type 0
Kept s e r = error_of r.0 ≡ some e → r.1 ≡ s

module _ (o : Outside) (s : Memory) (e : Error) where
  unmarked :
      (test : ChunkRecordEntry → Bool) (now : ℤ)
      → any test s.chunks ≡ false
      → record s { chunks = mark_read test now s.chunks } ≡ s
  unmarked test now h =
      ap (λ (es : List ChunkRecordEntry). record s { chunks = es })
        (mark_read_none test now s.chunks h)

  -- A call that returns an error leaves the store as it was.
  pub step_error : (c : Call) → reply_error o c s ≡ some e → step o c s ≡ s
  step_error (Call.upsert req) = upsert_outcome o req s (Kept s e) (λ _ _. refl) (λ _ h. cc)
  step_error (Call.refresh req) = refresh_outcome o req s (Kept s e) (λ _ _. refl) (λ _ h. cc)
  step_error (Call.get id) = λ _. Queries.get_peer-state o s id
  step_error (Call.get_by_key login signature) = λ _. Queries.get_by_key-state o s login signature
  step_error (Call.delete id) = delete_outcome id s (Kept s e) (λ _ _. refl) (λ _ _ h. cc)
  step_error Call.list = λ _. Queries.list-state o s
  step_error (Call.heartbeat id ttl) =
      heartbeat_outcome o id ttl s (Kept s e) (λ _ _. refl) (λ _ _ h. cc)
  step_error (Call.set_chunk_hash f i req) =
      set_chunk_hash_outcome o f i req s (Kept s e) (λ _ _. refl) (λ _ _ _ _ h. cc)
  step_error (Call.get_best_peers n) = λ _. Queries.get_best_peers-state o s n
  step_error (Call.report_chunk id req) =
      report_chunk_outcome o id req s (Kept s e) (λ _ _. refl) (λ _ _ _ _ _ _ h. cc)
  step_error (Call.confirm_chunk req) =
      confirm_chunk_outcome o req s (Kept s e) (λ _ _. refl) (λ _ _ _ _ _ _ _ h. cc)
  step_error (Call.read_chunk req) =
      read_chunk_outcome o req s (Kept s e) (λ _ _. refl)
        λ _ _ _. (
          λ none_marked _ _. unmarked (is_read_message o req s) (unix_now o) none_marked,
          λ _ h. cc,
        )
  step_error (Call.get_chunks_by_recipient id from) =
      λ _. Queries.get_chunks_by_recipient-state s id from
  step_error (Call.get_chunks_by_file_id id) = λ _. Queries.get_chunks_by_file_id-state s id
  step_error (Call.get_best_thick_peers n) = λ _. Queries.get_best_thick_peers-state o s n
  step_error (Call.set_signal id sig) =
      set_signal_outcome id sig s (Kept s e) (λ _ _. refl) (λ _ _ _. refl) (λ _ _ _ h. cc)
  step_error (Call.poll_signals id) = poll_signals_outcome id s (Kept s e) (λ _ _. refl) (λ _ h. cc)
  step_error Call.delete_expired_chunks = rw delete_expired_chunks_outcome (λ h. cc)
