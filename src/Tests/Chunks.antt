-- ===== src/Tests/Chunks.antt =====
-- Tests and examples of the chunks, the signals and `Refresh`.
use muninn.Prelude.{
  ◌⊎◌, true, ℕ, ◌++◌, ◌≡◌, refl, false, some, none, List, [], ◌∷◌, arith, if◌then◌else◌, In,
}
use muninn.Prelude.Int.{IsInt, ◌≤ℤ◌, pos, ◌-ℤ◌, ◌+ℤ◌, wrap, mul64, add64, floor_div}
use muninn.Text.{codes, trim_space, text_eq, to_lower}
use muninn.Text.Decimal.{itoa}
use muninn.Model.{Peer, key}
use muninn.Outside.{unix_now}
use muninn.Hash.{normalize_hash, valid_hash_format, chunk_key}
use muninn.Sign.{verify, decode_public_key, expected_payload, reported_payload}
use muninn.Assoc.{find, put, remove}
use muninn.Exec.{ok, ◌>>=◌, continue, pure, raise, reject_if, require, check, get, modify}
use muninn.Memory.{is_expired, duration_between, find_first, peer_by_key, verify_peer_signature}
use muninn.Memory.Peers.{upsert, upsert_at, store_peer, get_by_key, remove_id}
use muninn.Memory.Chunks.{set_chunk_hash, report_chunk, scored, expected_hash}
use muninn.Memory.Chunks.{get_chunks_by_file_id, delete_expired_chunks, hash_of}
use muninn.Memory.Chunks.Outcome.{new_entry}
use muninn.Memory.Chunks.Listing.{
  new_record, or_else, get_chunks_by_file_id-set_chunk_hash, expected_hash-set_chunk_hash,
}
use muninn.Memory.Chunks.Purge.{delete_expired_chunks_lem}
use muninn.Memory.Signals.{poll_signals}
use muninn.Memory.Signals.Queue.{set_signals, poll_signals-set_signals}
use muninn.Memory.Peers.Refreshed.{seen_now, get_by_key-refresh}
use muninn.Memory.Peers.{list_at, refresh}
use muninn.Memory.{ChunkRecordEntry}
use muninn.Model.{ChunkRecord, Signal, RefreshRequest}
use muninn.Prelude.{◌+◌, ◌↔◌, length}
use muninn.Memory.Calls.{serve}
use muninn.Tests.{outside, chunk_request, sample_store}
use muninn.Model.{ConfirmChunkRequest, ConfirmChunkResult}
use muninn.Sign.{confirmed_payload}
use muninn.Memory.Chunks.{confirm_chunk, update_first}
use muninn.Memory.Chunks.Confirmed.{IsConfirmed, confirm_chunk-IsConfirmed}
use muninn.Tests.{first_hash, outside-IsFair, sample_store-IsWell}
use muninn.Tests.Store.{alice, alice_found}

alice_trimmed : find (trim_space (codes "alice")) sample_store.peers ≡ some alice
unfolding trim_space
alice_trimmed = alice_found

chunk_accepted :
    (set_chunk_hash (outside 104) (codes "f") (pos 1) chunk_request sample_store).0 ≡ ok tt
unfolding sample_store serve upsert set_chunk_hash report_chunk upsert_at store_peer scored
    expected_hash peer_by_key verify_peer_signature find_first verify decode_public_key is_expired
    duration_between find put remove ◌>>=◌ continue pure raise reject_if require check get modify
    trim_space normalize_hash to_lower valid_hash_format chunk_key itoa expected_payload
    reported_payload key remove_id unix_now floor_div add64 mul64 wrap ◌+ℤ◌ ◌-ℤ◌
chunk_accepted = refl

get_chunks_by_file_id-set_chunk_hash_example :
    (rs : List ChunkRecord) × ((get_chunks_by_file_id
        (codes "f")
        (set_chunk_hash (outside 104) (codes "f") (pos 1) chunk_request sample_store).1).0
      ≡ ok rs)
    × In (new_record (outside 104) (codes "f") (pos 1) chunk_request) rs
get_chunks_by_file_id-set_chunk_hash_example =
    get_chunks_by_file_id-set_chunk_hash (outside 104) (codes "f") chunk_request sample_store 1
      (unfold trim_space in ((λ e. omega arith), tt)) (omega arith) chunk_accepted

expected_hash-set_chunk_hash_example :
    expected_hash
      (codes "f#1")
      (set_chunk_hash (outside 104) (codes "f") (pos 1) chunk_request sample_store).1
    ≡ hash_of (
        or_else (find_first (λ e. text_eq e.chunk (codes "f#1")) sample_store.chunks) (
          if text_eq (chunk_key (trim_space (codes "f")) (pos 1)) (codes "f#1")
          then some (new_entry (outside 104) (codes "f") (pos 1) chunk_request)
          else none))
expected_hash-set_chunk_hash_example =
    expected_hash-set_chunk_hash (outside 104) (codes "f") (pos 1) chunk_request sample_store
      (codes "f#1") chunk_accepted

delete_expired_chunks_lem_example :
    ((e : ChunkRecordEntry)
      → IsInt (e.created_at +ℤ e.ttl)
      → In e (delete_expired_chunks (outside 200000) sample_store).1.chunks ↔ (
          In e sample_store.chunks
          × ((e.persist ≡ true) ⊎ (unix_now (outside 200000) ≤ℤ e.created_at +ℤ e.ttl))))
    × ((n : ℕ) × ((delete_expired_chunks (outside 200000) sample_store).0 ≡ ok (pos n))
        × (n + length (delete_expired_chunks (outside 200000) sample_store).1.chunks
            ≡ length sample_store.chunks))
delete_expired_chunks_lem_example = delete_expired_chunks_lem (outside 200000) sample_store

abbrev offer : Signal
offer = record { from = codes "bob"; type = codes "offer"; body = codes "sdp" }

abbrev candidate : Signal
candidate = record { from = codes "bob"; type = codes "candidate"; body = [] }

poll_signals-set_signals_example :
    ((poll_signals
        (codes "alice")
        (set_signals (codes "alice") (offer ∷ candidate ∷ []) sample_store)).0
      ≡ ok (list_at (trim_space (codes "alice")) sample_store.signals ++ offer ∷ candidate ∷ []))
    × ((poll_signals
          (codes "alice")
          (poll_signals
            (codes "alice")
            (set_signals (codes "alice") (offer ∷ candidate ∷ []) sample_store)).1).0
        ≡ ok [])
poll_signals-set_signals_example =
    poll_signals-set_signals (codes "alice") (offer ∷ candidate ∷ []) sample_store
      (unfold trim_space in refl) (unfold trim_space in (refl, (refl, tt))) alice_trimmed

abbrev refresh_request : RefreshRequest
refresh_request = record { id = codes "alice"; login = codes "x"; signature_key = codes "y" }

seen_alive : is_expired (seen_now (outside 104) alice) (outside 104).now ≡ false
unfolding is_expired duration_between mul64 wrap ◌-ℤ◌ trim_space
seen_alive = refl

get_by_key-refresh_example :
    (ps : List Peer) × ((get_by_key
        (outside 104)
        (codes "x")
        (codes "y")
        (refresh (outside 104) refresh_request sample_store).1).0
      ≡ ok ps)
    × In (seen_now (outside 104) alice) ps
get_by_key-refresh_example =
    get_by_key-refresh (outside 104) refresh_request sample_store (unfold trim_space in refl)
      (unfold trim_space in refl) (unfold trim_space in refl) (unfold trim_space in refl)
      (unfold trim_space in refl) alice_trimmed seen_alive

abbrev confirm_request : ConfirmChunkRequest
confirm_request = record {
  recipient_id = codes "bo:key";
  file_id = codes "f";
  chunk_index = pos 0;
  hash = first_hash;
  signature = codes "sig";
}

abbrev confirmation : ConfirmChunkResult
confirmation = record {
  valid = true;
  expected_hash = first_hash;
  confirmed_hash = first_hash;
  delta = pos 1;
  peer = record alice {
    quality_score = pos 1002;
    quality = record { valid_reports = pos 2; invalid_reports = pos 0 };
  };
}

confirmed : (confirm_chunk (outside 104) confirm_request sample_store).0 ≡ ok confirmation
unfolding sample_store serve upsert set_chunk_hash report_chunk upsert_at store_peer scored
    expected_hash peer_by_key verify_peer_signature find_first verify decode_public_key is_expired
    duration_between find put remove ◌>>=◌ continue pure raise reject_if require check get modify
    trim_space normalize_hash to_lower valid_hash_format chunk_key itoa expected_payload
    reported_payload key remove_id unix_now floor_div add64 mul64 wrap ◌+ℤ◌ ◌-ℤ◌ confirm_chunk
    confirmed_payload update_first
confirmed = refl

confirm_chunk-IsConfirmed_example :
    IsConfirmed
      (outside 104)
      confirm_request
      sample_store
      confirmation
      (confirm_chunk (outside 104) confirm_request sample_store).1
confirm_chunk-IsConfirmed_example =
    confirm_chunk-IsConfirmed (outside 104) confirm_request sample_store (outside-IsFair 104)
      sample_store-IsWell confirmation confirmed
