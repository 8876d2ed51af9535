-- ===== src/Memory/Chunks/Reports.antt =====
-- The outcomes of `ReportChunk`, `ConfirmChunk` and `ReadChunk`.
use muninn.Prelude.{◌≡◌, Bool, true, false, none, some, if◌then◌else◌, arith}
use muninn.Prelude.Int.{ℤ}
use muninn.Text.{Text, is_empty, trim_space, text_eq}
use muninn.Model.{
  Peer, ChunkReportRequest, ChunkReportResult, ConfirmChunkRequest, ConfirmChunkResult,
  ReadChunkRequest, ReadChunkResult,
}
use muninn.Outside.{Outside, unix_now}
use muninn.Hash.{normalize_hash, chunk_key}
use muninn.Sign.{reported_payload, confirmed_payload, read_payload}
use muninn.Score.{Error}
use muninn.Assoc.{find, put}
use muninn.Exec.{Result, ok, err}
use muninn.Exec.Rules.{
  after_reject, after_check, after_require, after_get, after_modify, after_pure,
}
use muninn.Memory.{Memory, ChunkRecordEntry, find_first, peer_by_key, verify_peer_signature}
use muninn.Memory.Chunks.{
  report_chunk, confirm_chunk, read_chunk, expected_hash, scored, delta_of, update_first,
  confirm_entry, is_entry_for, is_message_for, mark_read, any,
}

-- The state and the result of a report on the peer `peer`, with the verdict `valid`.
abbrev pub after_report : Text → Peer → Bool → Memory → Memory
after_report id peer valid s = record s { peers = put id (scored valid peer) s.peers }

abbrev pub report_result : Text → Text → Peer → ChunkReportResult
report_result expected reported peer =
    let valid = text_eq reported expected in
    record {
      valid = valid;
      expected_hash = expected;
      reported_hash = reported;
      delta = delta_of valid;
      peer = scored valid peer;
    }

module _ (o : Outside) (source_peer_id : Text) (req : ChunkReportRequest) (s : Memory) where
  abbrev pub reported_hash : Text
  reported_hash = normalize_hash o.lower_wide req.hash

  abbrev pub reported_key : Text
  reported_key = chunk_key (trim_space req.file_id) req.chunk_index

  pub report_chunk_outcome {ℓ} :
      (Q : Result ChunkReportResult × Memory → Type ℓ)
      → ((e : Error) → Q (err e, s))
      → ((reporter peer : Peer)
          → find (trim_space req.reporter_id) s.peers ≡ some reporter
          → verify_peer_signature o reporter req.signature (
              reported_payload
                (trim_space req.file_id)
                req.chunk_index
                reported_hash
                (trim_space source_peer_id))
            ≡ none
          → is_empty (expected_hash reported_key s) ≡ false
          → find (trim_space source_peer_id) s.peers ≡ some peer
          → Q (
            ok (report_result (expected_hash reported_key s) reported_hash peer),
            after_report
                (trim_space source_peer_id)
                peer
                (text_eq reported_hash (expected_hash reported_key s))
                s,
          ))
      → Q (report_chunk o source_peer_id req s)
  unfolding report_chunk
  report_chunk_outcome Q fail done =
      after_reject Q _ _ s (λ _. fail _)
        λ good. after_get Q _ s (
          after_require Q _ _ s (λ _. fail _)
            λ reporter found.
              after_check Q _ _ s (λ e _. fail e)
                λ signed.
                  after_reject Q _ _ s (λ _. fail _)
                    λ known.
                      after_require Q _ _ s (λ _. fail _)
                        λ peer present.
                          after_modify Q _ _ s
                            (after_pure Q _ _ (done reporter peer found signed known present)))

-- The state and the result of a confirmation of `entry` by the hash `confirmed`.
abbrev pub after_confirm : (ChunkRecordEntry → Bool) → ℤ → Peer → Bool → Memory → Memory
after_confirm test now sender valid s = record s {
  chunks = if valid then update_first test (confirm_entry now) s.chunks else s.chunks;
  peers = put sender.id (scored valid sender) s.peers;
}

abbrev pub confirm_result : ChunkRecordEntry → Text → Peer → ConfirmChunkResult
confirm_result entry confirmed sender =
    let valid = text_eq confirmed entry.hash in
    record {
      valid = valid;
      expected_hash = entry.hash;
      confirmed_hash = confirmed;
      delta = delta_of valid;
      peer = scored valid sender;
    }

module _ (o : Outside) (req : ConfirmChunkRequest) (s : Memory) where
  abbrev pub confirmed_hash : Text
  confirmed_hash = normalize_hash o.lower_wide req.hash

  abbrev pub is_confirmed_entry : ChunkRecordEntry → Bool
  is_confirmed_entry =
      is_entry_for (chunk_key (trim_space req.file_id) req.chunk_index)
        (trim_space req.recipient_id)

  pub confirm_chunk_outcome {ℓ} :
      (Q : Result ConfirmChunkResult × Memory → Type ℓ)
      → ((e : Error) → Q (err e, s))
      → ((recipient sender : Peer) (entry : ChunkRecordEntry)
          → peer_by_key o 0 (trim_space req.recipient_id) s ≡ some recipient
          → verify_peer_signature o recipient req.signature
              (confirmed_payload (trim_space req.file_id) req.chunk_index confirmed_hash)
            ≡ none
          → find_first is_confirmed_entry s.chunks ≡ some entry
          → peer_by_key o 1 entry.sender_id s ≡ some sender
          → Q (
            ok (confirm_result entry confirmed_hash sender),
            after_confirm is_confirmed_entry
                (unix_now o)
                sender
                (text_eq confirmed_hash entry.hash)
                s,
          ))
      → Q (confirm_chunk o req s)
  unfolding confirm_chunk
  confirm_chunk_outcome Q fail done =
      after_reject Q _ _ s (λ _. fail _)
        λ good. after_get Q _ s (
          after_require Q _ _ s (λ _. fail _)
            λ recipient found.
              after_check Q _ _ s (λ e _. fail e)
                λ signed.
                  after_require Q _ _ s (λ _. fail _)
                    λ entry known.
                      after_require Q _ _ s (λ _. fail _)
                        λ sender present. after_modify Q _ _ s (
                          after_pure Q _ _
                            (done recipient sender entry found signed known present)))

module _ (o : Outside) (req : ReadChunkRequest) (s : Memory) where
  abbrev pub is_read_message : ChunkRecordEntry → Bool
  is_read_message = is_message_for (trim_space req.file_id) (trim_space req.recipient_id)

  -- The marks of the loop, which stay in the state where no entry was found too.
  abbrev pub after_read : Memory
  after_read = record s { chunks = mark_read is_read_message (unix_now o) s.chunks }

  pub read_chunk_outcome {ℓ} :
      (Q : Result ReadChunkResult × Memory → Type ℓ)
      → ((e : Error) → Q (err e, s))
      → ((recipient : Peer)
          → peer_by_key o 0 (trim_space req.recipient_id) s ≡ some recipient
          → verify_peer_signature o recipient req.signature (read_payload (trim_space req.file_id))
            ≡ none
          → (any is_read_message s.chunks ≡ false → (e : Error) → Q (err e, after_read))
            × (any is_read_message s.chunks ≡ true → Q (ok (record { valid = true }), after_read)))
      → Q (read_chunk o req s)
  unfolding read_chunk
  read_chunk_outcome Q fail done =
      after_reject Q _ _ s (λ _. fail _)
        λ good. after_get Q _ s (
          after_require Q _ _ s (λ _. fail _)
            λ recipient found.
              after_check Q _ _ s (λ e _. fail e)
                λ signed. after_modify Q _ _ s (
                  after_reject Q _ _ after_read
                    (λ missing. (done recipient found signed).0 (ground arith) _)
                    λ marked. after_pure Q _ _ ((done recipient found signed).1 (ground arith))))
