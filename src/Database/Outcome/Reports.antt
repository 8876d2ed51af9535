-- ===== src/Database/Outcome/Reports.antt =====
-- The outcomes of the methods of `dbStore` by which a recipient answers for a chunk. A method that
-- asks for a key panics on a key without a colon.
use muninn.Prelude.{◌≡◌, Bool, true, false, none, keep, In}
use muninn.Text.{Text, trim_space, text_eq}
use muninn.Model.{
  Peer, ChunkReportRequest, ChunkReportResult, ConfirmChunkRequest, ConfirmChunkResult,
  ReadChunkRequest, ReadChunkResult,
}
use muninn.Hash.{normalize_hash}
use muninn.Sign.{reported_payload, confirmed_payload, read_payload}
use muninn.Score.{Error}
use muninn.Memory.{verify_peer_signature}
use muninn.Memory.Chunks.{delta_of}
use muninn.Action.{Reply, done, failed, panicked, Action, ◌>>◌}
use muninn.Action.Rules.{
  Then, after_call, after_check, after_reject, after_require, after_get, after_pure, after_modify,
  after_last_modify,
}
use muninn.Database.{Database, ChunkRow, PeerRow, Server, has_id, update_where}
use muninn.Database.Outcome.{
  after_statement, IsFound, IsFoundByKey, after_peer_by_id, after_peer_by_key,
  after_wrapped_peer_by_id, after_wrapped_peer_by_key, first_row-In,
}
use muninn.Database.Reports.{
  count_row, is_chunk, report_chunk, is_addressed, confirm_rows, confirm_if, holds_key,
  confirm_chunk, is_message, read_rows, read_chunk,
}
use muninn.Database.Outcome.Chunks.{with_peers, with_chunks}

-- The peers after a report has been counted.
abbrev pub counted : (PeerRow → Bool) → Bool → Database → Database
counted test valid db = with_peers db (update_where test (count_row valid) db.peers)

abbrev pub confirmed_database : Server → Text → Bool → (ChunkRow → Bool) → Database → Database
confirmed_database w driver true test db =
    with_chunks db (confirm_rows driver test w.clock db.chunks)
confirmed_database w driver false test db = db

module _ {ℓ} (w : Server) (db : Database) where
  pub report_chunk_outcome :
      (source_peer_id : Text) (req : ChunkReportRequest)
      (Q : Reply ChunkReportResult × Database → Type ℓ)
      → ((e : Error) → Q (failed e, db))
      → ((p : Peer) (row : ChunkRow)
          → let file_id = trim_space req.file_id in
            let reported = normalize_hash w.outside.lower_wide req.hash in
            let db' =
              counted
                (has_id (trim_space source_peer_id))
                (text_eq reported row.expected_hash)
                db in
            IsFound w 0 (has_id (trim_space req.reporter_id)) db p
            → verify_peer_signature w.outside p req.signature
                (reported_payload file_id req.chunk_index reported (trim_space source_peer_id))
              ≡ none
            → In row (keep (is_chunk file_id req.chunk_index) (w.chunk_order 1 db.chunks))
            → ((e : Error) → Q (failed e, db'))
              × ((q : Peer)
                  → IsFound w 3 (has_id (trim_space source_peer_id)) db' q
                  → Q (
                    done (record {
                      valid = text_eq reported row.expected_hash;
                      expected_hash = row.expected_hash;
                      reported_hash = reported;
                      delta = delta_of (text_eq reported row.expected_hash);
                      peer = q;
                    }),
                    db',
                  )))
      → Q (report_chunk w source_peer_id req db)
  unfolding report_chunk
  report_chunk_outcome source_peer_id req Q fail go =
      after_reject Q _ _ db (λ _. fail _)
        λ _. after_peer_by_id Q w 0 (trim_space req.reporter_id) db _ _ (fail _) λ p found.
          after_check Q _ _ db (λ e _. fail e)
            λ signed. after_statement Q w 1 _ _ db fail (
              after_get Q _ db (
                after_require Q _ _ db (λ _. fail _)
                  λ row listed. after_statement Q w 2 _ _ db fail (
                    after_modify Q _ _ db (
                      let after = go p row found signed (first_row-In _ listed) in
                      after_wrapped_peer_by_id Q w 3 (trim_space source_peer_id) _ _ _ after.0
                        λ q source. after_pure Q _ _ (after.1 q source)))))

  after_confirm_if :
      {B : Type 0} (Q : Reply B × Database → Type ℓ) (driver : Text) (valid : Bool)
      (test : ChunkRow → Bool) (k : Action Database B) (s : Database)
      → ((e : Error) → Q (failed e, s))
      → Q (k (confirmed_database w driver valid test s))
      → Q ((confirm_if w driver valid test >> k) s)
  unfolding confirm_if
  after_confirm_if Q driver true test k s fail go =
      after_call Q _ (λ _. k) s
        (after_statement (Then Q (λ _. k)) w 3 _ _ s fail
          (after_last_modify (Then Q (λ _. k)) _ s go))
  after_confirm_if Q driver false test k s fail go =
      after_call Q _ (λ _. k) s (after_pure (Then Q (λ _. k)) tt s go)

  pub confirm_chunk_outcome :
      (driver : Text) (req : ConfirmChunkRequest) (Q : Reply ConfirmChunkResult × Database → Type ℓ)
      → ((e : Error) → Q (failed e, db))
      → Q (panicked, db)
      → ((p : Peer) (row : ChunkRow)
          → let file_id = trim_space req.file_id in
            let confirmed = normalize_hash w.outside.lower_wide req.hash in
            let addressed = is_addressed file_id req.chunk_index (trim_space req.recipient_id) in
            let valid = text_eq confirmed row.expected_hash in
            let db' = counted (holds_key row.sender_id) valid db in
            let db'' = confirmed_database w driver valid addressed db' in
            IsFoundByKey w 0 (trim_space req.recipient_id) db p
            → verify_peer_signature w.outside p req.signature
                (confirmed_payload file_id req.chunk_index confirmed)
              ≡ none
            → In row (keep addressed (w.chunk_order 1 db.chunks))
            → ((e : Error) → Q (failed e, db'))
              × ((e : Error) → Q (failed e, db''))
              × Q (panicked, db'')
              × ((q : Peer)
                  → IsFoundByKey w 4 row.sender_id db'' q
                  → Q (
                    done (record {
                      valid = valid;
                      expected_hash = row.expected_hash;
                      confirmed_hash = confirmed;
                      delta = delta_of valid;
                      peer = q;
                    }),
                    db'',
                  )))
      → Q (confirm_chunk w driver req db)
  unfolding confirm_chunk
  confirm_chunk_outcome driver req Q fail panic go =
      after_reject Q _ _ db (λ _. fail _)
        λ _. after_peer_by_key Q w 0 (trim_space req.recipient_id) db _ _ (fail _) panic λ p found.
          after_check Q _ _ db (λ e _. fail e)
            λ signed. after_statement Q w 1 _ _ db fail (
              after_get Q _ db (
                after_require Q _ _ db (λ _. fail _)
                  λ row listed. after_statement Q w 2 _ _ db fail (
                    after_modify Q _ _ db (
                      let (unconfirmed, unfound, panics, answered) =
                        go p row found signed (first_row-In _ listed) in
                      after_confirm_if Q driver _ _ _ _ unconfirmed (
                        after_wrapped_peer_by_key Q w 4 row.sender_id _ _ _ unfound panics
                          λ q sender. after_pure Q _ _ (answered q sender))))))

  pub read_chunk_outcome :
      (driver : Text) (req : ReadChunkRequest) (Q : Reply ReadChunkResult × Database → Type ℓ)
      → ((e : Error) → Q (failed e, db))
      → Q (panicked, db)
      → ((p : Peer)
          → IsFoundByKey w 0 (trim_space req.recipient_id) db p
          → verify_peer_signature w.outside p req.signature (read_payload (trim_space req.file_id))
            ≡ none
          → Q (
            done (record { valid = true }),
            with_chunks db (
                read_rows driver
                  (is_message (trim_space req.file_id) (trim_space req.recipient_id))
                  w.clock
                  db.chunks),
          ))
      → Q (read_chunk w driver req db)
  unfolding read_chunk
  read_chunk_outcome driver req Q fail panic go =
      after_reject Q _ _ db (λ _. fail _)
        λ _. after_peer_by_key Q w 0 (trim_space req.recipient_id) db _ _ (fail _) panic λ p found.
          after_check Q _ _ db (λ e _. fail e)
            λ signed.
              after_statement Q w 1 _ _ db fail
                (after_modify Q _ _ db (after_pure Q _ _ (go p found signed)))
