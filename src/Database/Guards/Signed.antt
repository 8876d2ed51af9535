-- ===== src/Database/Guards/Signed.antt =====
-- What an accepted call of `dbStore` on chunks has shown: a stored peer signed the call's message.
use muninn.Prelude.{ℕ, ◌≡◌, Bool, true, false, some, In, In-perm}
use muninn.Text.{Text, trim_space}
use muninn.Text.Split.{split2}
use muninn.Model.{Peer}
use muninn.Hash.{normalize_hash}
use muninn.Sign.{expected_payload, reported_payload, confirmed_payload, read_payload}
use muninn.Action.{Reply, done}
use muninn.Memory.{is_expired}
use muninn.Memory.Guards.Signed.{IsSigned, verify_peer_signature_sound}
use muninn.Memory.Calls.{Call}
use muninn.Database.{Database, PeerRow, Server, IsFairServer, has_id, has_key, scan_peer}
use muninn.Database.Calls.{outcome, outcome_of}
use muninn.Database.Outcome.{IsFound, IsFoundByKey}
use muninn.Database.Outcome.Chunks
use muninn.Database.Outcome.Reports

-- The peer of a row of the table that passes the test, as it is scanned; it has not expired.
abbrev pub IsStored : Server → Database → (PeerRow → Bool) → Peer → Type 0
IsStored w db test p =
    (row : PeerRow) × In row db.peers
    × (test row ≡ true)
    × (p ≡ scan_peer row)
    × (is_expired p w.outside.now ≡ false)

-- The peer's row has the login and the signature key that the key is made of.
abbrev pub IsStoredByKey : Server → Database → Text → Peer → Type 0
IsStoredByKey w db key p =
    (login signature : Text) × (split2 b':' (trim_space key) ≡ some (login, signature))
    × IsStored w db (has_key login signature) p

-- As for the memory store.
abbrev pub IsAuthorised : Server → Call → Database → Type 0
IsAuthorised w (Call.set_chunk_hash f i req) db =
    (p : Peer) × IsStoredByKey w db (trim_space req.sender_id) p
    × IsSigned w.outside p req.signature
        (expected_payload (trim_space f) i (normalize_hash w.outside.lower_wide req.hash))
IsAuthorised w (Call.report_chunk id req) db =
    (p : Peer) × IsStored w db (has_id (trim_space req.reporter_id)) p
    × IsSigned w.outside p req.signature (
        reported_payload (trim_space req.file_id) req.chunk_index
          (normalize_hash w.outside.lower_wide req.hash) (trim_space id))
IsAuthorised w (Call.confirm_chunk req) db =
    (p : Peer) × IsStoredByKey w db (trim_space req.recipient_id) p
    × IsSigned w.outside p req.signature (
        confirmed_payload (trim_space req.file_id) req.chunk_index
          (normalize_hash w.outside.lower_wide req.hash))
IsAuthorised w (Call.read_chunk req) db =
    (p : Peer) × IsStoredByKey w db (trim_space req.recipient_id) p
    × IsSigned w.outside p req.signature (read_payload (trim_space req.file_id))
IsAuthorised w _ db = Unit

abbrev Accepted : {A : Type 0} → Type 0 → Reply A × Database → Type 0
Accepted P r = outcome_of r.0 ≡ done tt → P

module _ (w : Server) (driver : Text) (db : Database) (fair : IsFairServer w) where
  stored : (i : ℕ) (test : PeerRow → Bool) (p : Peer) → IsFound w i test db p → IsStored w db test p
  stored i test p f =
      (f.row, In-perm (fair.peer_perm i db.peers) f.listed, f.passes, f.scanned, f.alive)

  stored_by_key :
      (i : ℕ) (key : Text) (p : Peer) → IsFoundByKey w i key db p → IsStoredByKey w db key p
  stored_by_key i key p (login, signature, split, f) = (login, signature, split, stored i _ p f)

  -- Where every SELECT finds each row of its table once, a call that registers, reports, confirms
  -- or reads a chunk succeeds only if a peer of the table that has not expired has signed the
  -- message of that call: the peer whose login and signature key make up the sender's or
  -- recipient's key, or the reporter. The signature is Base64 of 64 bytes that Ed25519 accepts
  -- under the peer's key.
  pub accepted-IsAuthorised : (c : Call) → outcome w driver c db ≡ done tt → IsAuthorised w c db
  accepted-IsAuthorised (Call.set_chunk_hash f i req) =
      Chunks.set_chunk_hash_outcome w db f i req
        (Accepted (IsAuthorised w (Call.set_chunk_hash f i req) db)) (λ _ e. cc) (λ e. cc)
        λ p _ found signed _.
          (p, stored_by_key 0 _ p found, verify_peer_signature_sound w.outside p _ _ signed)
  accepted-IsAuthorised (Call.report_chunk id req) =
      Reports.report_chunk_outcome w db id req
        (Accepted (IsAuthorised w (Call.report_chunk id req) db)) (λ _ e. cc)
        λ p _ found signed _.
          let shown : IsAuthorised w (Call.report_chunk id req) db =
            (p, stored 0 _ p found, verify_peer_signature_sound w.outside p _ _ signed) in
          (λ _ e. cc, λ _ _ _. shown)
  accepted-IsAuthorised (Call.confirm_chunk req) =
      Reports.confirm_chunk_outcome w db driver req
        (Accepted (IsAuthorised w (Call.confirm_chunk req) db)) (λ _ e. cc) (λ e. cc)
        λ p _ found signed _.
          let shown : IsAuthorised w (Call.confirm_chunk req) db =
            (p, stored_by_key 0 _ p found, verify_peer_signature_sound w.outside p _ _ signed) in
          (λ _ e. cc, λ _ e. cc, λ e. cc, λ _ _ _. shown)
  accepted-IsAuthorised (Call.read_chunk req) =
      Reports.read_chunk_outcome w db driver req
        (Accepted (IsAuthorised w (Call.read_chunk req) db)) (λ _ e. cc) (λ e. cc)
        λ p found signed _.
          (p, stored_by_key 0 _ p found, verify_peer_signature_sound w.outside p _ _ signed)
  accepted-IsAuthorised _ = λ _. tt
