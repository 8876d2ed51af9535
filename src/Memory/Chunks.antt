-- ===== src/Memory/Chunks.antt =====
-- The methods of `MemoryStore` on chunks: SetChunkHash, ReportChunk, ConfirmChunk, ReadChunk,
-- GetChunksByRecipient, GetChunksByFileID and DeleteExpiredChunks.
pub mod Outcome
pub mod Queries
unfoldable pub use Queries.*
pub mod Reports
pub mod Listing
pub mod Purge
pub mod Confirmed
use muninn.Prelude.{
  ℕ, ◌≡◌, Bool, true, false, ◌&&◌, ◌||◌, not, Option, none, some, List, [], ◌∷◌, ◌++◌,
  if◌then◌else◌, keep, map, length,
}
use muninn.Prelude.Int.{ℤ, pos, leb_ℤ, ltb_ℤ, add64}
use muninn.Text.{Text, text_eq, is_empty, trim_space}
use muninn.Model.{
  Peer, QualityStats, RegisterChunkRequest, ChunkReportRequest, ChunkReportResult,
  ConfirmChunkRequest, ConfirmChunkResult, ReadChunkRequest, ReadChunkResult, ChunkRecord,
}
use muninn.Outside.{Outside, unix_now}
use muninn.Hash.{normalize_hash, valid_hash_format, chunk_key, parse_chunk_key}
use muninn.Sign.{expected_payload, reported_payload, confirmed_payload, read_payload}
use muninn.Score.{
  Error, not_found, invalid_chunk, chunk_not_found, quality_points_valid, quality_points_invalid,
}
use muninn.Assoc.{Assoc, find, put}
use muninn.Exec.{
  Result, ok, err, Exec, pure, raise, ◌>>=◌, ◌>>◌, reject_if, require, check, get, modify,
}
use muninn.Memory.{
  Memory, ChunkRecordEntry, positive_or, default_chunk_ttl, find_first, peer_by_key,
  verify_peer_signature,
}

-- The texts that no request may leave empty, and the checks on a hash and an index.
abbrev pub bad_hash : Text → Bool
bad_hash hash = is_empty hash || not (valid_hash_format hash)

abbrev pub bad_index : ℤ → Bool
bad_index i = ltb_ℤ i (pos 0)

unfoldable pub set_chunk_hash : Outside → Text → ℤ → RegisterChunkRequest → Exec Memory (Unit {0})
set_chunk_hash o file_id chunk_index req = do
  let file_id = trim_space file_id
  let sender_key = trim_space req.sender_id
  let recipient_key = trim_space req.recipient_id
  let peer_id = trim_space req.peer_id
  let hash = normalize_hash o.lower_wide req.hash
  reject_if
      (is_empty file_id
        || is_empty sender_key
        || is_empty recipient_key
        || is_empty peer_id
        || bad_hash hash
        || bad_index chunk_index
        || is_empty (trim_space req.signature))
      invalid_chunk
  s ← get
  sender ← require (peer_by_key o 0 sender_key s) not_found
  check (verify_peer_signature o sender req.signature (expected_payload file_id chunk_index hash))
  modify (λ s. record s {
    chunks =
        s.chunks
        ++ record {
          chunk = chunk_key file_id chunk_index;
          hash = hash;
          sender_id = sender_key;
          recipient_id = recipient_key;
          peer_id = peer_id;
          persist = req.persist;
          confirmed = false;
          readed = false;
          created_at = unix_now o;
          updated_at = unix_now o;
          ttl = positive_or default_chunk_ttl req.ttl;
        }
          ∷ [];
  })

-- `ReportChunk` and `ConfirmChunk` count a valid or an invalid report and move the score by one.
abbrev pub delta_of : Bool → ℤ
delta_of valid = if valid then quality_points_valid else quality_points_invalid

abbrev pub count_report : Bool → QualityStats → QualityStats
count_report true q = record q { valid_reports = add64 q.valid_reports (pos 1) }
count_report false q = record q { invalid_reports = add64 q.invalid_reports (pos 1) }

unfoldable pub scored : Bool → Peer → Peer
scored valid p = record p {
  quality = count_report valid p.quality;
  quality_score = add64 p.quality_score (delta_of valid);
}

abbrev pub hash_of : Option ChunkRecordEntry → Text
hash_of none = []
hash_of (some e) = e.hash

-- The hash of the first entry of the chunk, empty if there is none.
unfoldable pub expected_hash : Text → Memory → Text
expected_hash key s = hash_of (find_first (λ e. text_eq e.chunk key) s.chunks)

unfoldable pub report_chunk : Outside → Text → ChunkReportRequest → Exec Memory ChunkReportResult
report_chunk o source_peer_id req = do
  let source_peer_id = trim_space source_peer_id
  let reporter_id = trim_space req.reporter_id
  let file_id = trim_space req.file_id
  let reported = normalize_hash o.lower_wide req.hash
  reject_if
      (is_empty source_peer_id
        || is_empty reporter_id
        || is_empty file_id
        || bad_hash reported
        || bad_index req.chunk_index
        || is_empty (trim_space req.signature))
      invalid_chunk
  s ← get
  reporter ← require (find reporter_id s.peers) not_found
  check (
      verify_peer_signature o reporter req.signature
        (reported_payload file_id req.chunk_index reported source_peer_id))
  let expected = expected_hash (chunk_key file_id req.chunk_index) s
  reject_if (is_empty expected) chunk_not_found
  peer ← require (find source_peer_id s.peers) not_found
  let valid = text_eq reported expected
  let peer' = scored valid peer
  modify (λ s. record s { peers = put source_peer_id peer' s.peers })
  pure (record {
    valid = valid;
    expected_hash = expected;
    reported_hash = reported;
    delta = delta_of valid;
    peer = peer';
  })

-- The write through `entry`, the pointer to the first entry that passes the test.
unfoldable pub update_first {ℓ} : {A : Type ℓ} → (A → Bool) → (A → A) → List A → List A
update_first test f [] = []
update_first test f (x ∷ xs) = if test x then f x ∷ xs else x ∷ update_first test f xs

abbrev pub is_entry_for : Text → Text → ChunkRecordEntry → Bool
is_entry_for key recipient_key e = text_eq e.chunk key && text_eq e.recipient_id recipient_key

abbrev pub confirm_entry : ℤ → ChunkRecordEntry → ChunkRecordEntry
confirm_entry now e = record e { confirmed = true; updated_at = now }

unfoldable pub confirm_chunk : Outside → ConfirmChunkRequest → Exec Memory ConfirmChunkResult
confirm_chunk o req = do
  let recipient_key = trim_space req.recipient_id
  let file_id = trim_space req.file_id
  let confirmed = normalize_hash o.lower_wide req.hash
  reject_if
      (is_empty recipient_key
        || is_empty file_id
        || bad_hash confirmed
        || bad_index req.chunk_index
        || is_empty (trim_space req.signature))
      invalid_chunk
  s ← get
  recipient ← require (peer_by_key o 0 recipient_key s) not_found
  check (
      verify_peer_signature o recipient req.signature
        (confirmed_payload file_id req.chunk_index confirmed))
  let for_recipient = is_entry_for (chunk_key file_id req.chunk_index) recipient_key
  entry ← require (find_first for_recipient s.chunks) chunk_not_found
  sender_peer ← require (peer_by_key o 1 entry.sender_id s) not_found
  let valid = text_eq confirmed entry.hash
  let sender_peer' = scored valid sender_peer
  modify (λ s. record s {
    chunks =
        if valid
        then update_first for_recipient (confirm_entry (unix_now o)) s.chunks
        else s.chunks;
    peers = put sender_peer.id sender_peer' s.peers;
  })
  pure (record {
    valid = valid;
    expected_hash = entry.hash;
    confirmed_hash = confirmed;
    delta = delta_of valid;
    peer = sender_peer';
  })

abbrev pub is_message_for : Text → Text → ChunkRecordEntry → Bool
is_message_for file_id recipient_key e =
    text_eq e.recipient_id recipient_key && text_eq (parse_chunk_key e.chunk).0 file_id

-- The loop of `ReadChunk` over the entries, and its flag `marked`.
unfoldable pub mark_read :
    (ChunkRecordEntry → Bool) → ℤ → List ChunkRecordEntry → List ChunkRecordEntry
mark_read test now [] = []
mark_read test now (e ∷ es) =
    (if test e then record e { readed = true; updated_at = now } else e) ∷ mark_read test now es

unfoldable pub any {ℓ} : {A : Type ℓ} → (A → Bool) → List A → Bool
any test [] = false
any test (x ∷ xs) = test x || any test xs

unfoldable pub read_chunk : Outside → ReadChunkRequest → Exec Memory ReadChunkResult
read_chunk o req = do
  let recipient_key = trim_space req.recipient_id
  let file_id = trim_space req.file_id
  reject_if (is_empty file_id || is_empty (trim_space req.signature)) invalid_chunk
  s ← get
  recipient ← require (peer_by_key o 0 recipient_key s) not_found
  check (verify_peer_signature o recipient req.signature (read_payload file_id))
  let for_recipient = is_message_for file_id recipient_key
  modify (λ s. record s { chunks = mark_read for_recipient (unix_now o) s.chunks })
  reject_if (not (any for_recipient s.chunks)) chunk_not_found
  pure (record { valid = true })
