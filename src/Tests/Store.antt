-- ===== src/Tests/Store.antt =====
-- Tests and examples of the memory store.
use muninn.Prelude.{
  ◌≡◌, refl, false, some, none, List, [], ◌∷◌, not, ◌&&◌, arith, ◌*◌, if◌then◌else◌, In,
}
use muninn.Prelude.Int.{pos, ltb_ℤ, ◌-ℤ◌, ◌+ℤ◌, wrap, mul64, add64, pos_part, floor_div}
use muninn.Text.{Text, codes, trim_space, text_eq, is_empty, to_lower}
use muninn.Text.Decimal.{itoa}
use muninn.Model.{Peer, RegisterRequest, key, login_key}
use muninn.Outside.{unix_now}
use muninn.Hash.{normalize_hash, valid_hash_format, chunk_key}
use muninn.Sign.{verify, decode_public_key, expected_payload, reported_payload}
use muninn.Score.{not_found}
use muninn.Assoc.{find, put, remove}
use muninn.Exec.{ok, err, ◌>>=◌, continue, pure, raise, reject_if, require, check, get, modify}
use muninn.Memory.{
  new_memory, is_expired, duration_between, find_first, peer_by_key, verify_peer_signature,
}
use muninn.Memory.Peers.{
  upsert, upsert_at, store_peer, get_peer, get_by_key, live_peers, delete, remove_id,
}
use muninn.Memory.Peers.Register.{
  registered, IsRegistered, find-upsert, get_peer-upsert, get_peer-upsert_overflow,
}
use muninn.Memory.Peers.ByKey.{get_by_key_complete}
use muninn.Memory.Ranking.{get_best_peers}
use muninn.Memory.Ranking.Top.{IsBest, get_best_peers-IsBest}
use muninn.Memory.Chunks.{set_chunk_hash, report_chunk, scored, expected_hash}
use muninn.Memory.Calls.{Call, step, serve}
use muninn.Memory.Invariant.{IsWell}
use muninn.Memory.Invariant.Steps.{serve-IsWell}
use muninn.Memory.Guards.{reply_error, step_error}
use muninn.Memory.Guards.Signed.{IsAuthorised, accepted_is_signed}
use muninn.Memory.Balance.{IsBalanced}
use muninn.Memory.Balance.Runs.{serve-IsBalanced}
use muninn.Tests.{
  outside, outside-IsFair, register_alice, chunk_request, sample_run, sample_run-IsFairRun,
  sample_store, sample_store-IsWell,
}

-- Alice after the run: one valid report.
abbrev pub alice : Peer
alice = record (registered (outside 100) register_alice none) {
  quality_score = pos 1001;
  quality = record { valid_reports = pos 1; invalid_reports = pos 0 };
}

pub alice_found : find (codes "alice") sample_store.peers ≡ some alice
unfolding sample_store serve upsert set_chunk_hash report_chunk upsert_at store_peer scored
    expected_hash peer_by_key verify_peer_signature find_first verify decode_public_key is_expired
    duration_between find put remove ◌>>=◌ continue pure raise reject_if require check get modify
    trim_space normalize_hash to_lower valid_hash_format chunk_key itoa expected_payload
    reported_payload key remove_id unix_now floor_div add64 mul64 wrap ◌+ℤ◌ ◌-ℤ◌
alice_found = refl

registered_ok :
    reply_error (outside 104) (Call.set_chunk_hash (codes "f") (pos 1) chunk_request) sample_store
    ≡ none
unfolding sample_store serve upsert set_chunk_hash report_chunk upsert_at store_peer scored
    expected_hash peer_by_key verify_peer_signature find_first verify decode_public_key is_expired
    duration_between find put remove ◌>>=◌ continue pure raise reject_if require check get modify
    trim_space normalize_hash to_lower valid_hash_format chunk_key itoa expected_payload
    reported_payload key remove_id unix_now floor_div add64 mul64 wrap ◌+ℤ◌ ◌-ℤ◌
registered_ok = refl

serve-IsWell_example : IsWell (serve sample_run new_memory)
serve-IsWell_example = serve-IsWell sample_run sample_run-IsFairRun

serve-IsBalanced_example : IsBalanced alice
unfolding sample_store
serve-IsBalanced_example =
    serve-IsBalanced sample_run sample_run-IsFairRun (codes "alice") alice alice_found

accepted_is_signed_example :
    IsAuthorised (outside 104) (Call.set_chunk_hash (codes "f") (pos 1) chunk_request) sample_store
accepted_is_signed_example =
    accepted_is_signed (outside 104) sample_store (outside-IsFair 104) sample_store-IsWell
      (Call.set_chunk_hash (codes "f") (pos 1) chunk_request) registered_ok

zed_unknown : reply_error (outside 104) (Call.delete (codes "zed")) sample_store ≡ some not_found
unfolding sample_store serve upsert set_chunk_hash report_chunk upsert_at store_peer scored
    expected_hash peer_by_key verify_peer_signature find_first verify decode_public_key is_expired
    duration_between find put remove ◌>>=◌ continue pure raise reject_if require check get modify
    trim_space normalize_hash to_lower valid_hash_format chunk_key itoa expected_payload
    reported_payload key remove_id unix_now floor_div add64 mul64 wrap ◌+ℤ◌ ◌-ℤ◌ delete
zed_unknown = refl

step_error_example : step (outside 104) (Call.delete (codes "zed")) sample_store ≡ sample_store
step_error_example =
    step_error (outside 104) sample_store not_found (Call.delete (codes "zed")) zed_unknown

alice_alive : is_expired alice (outside 104).now ≡ false
unfolding is_expired duration_between mul64 wrap ◌-ℤ◌ trim_space
alice_alive = refl

alice-key : key alice ≡ login_key (trim_space (codes "al ")) (trim_space (codes "key"))
unfolding key trim_space
alice-key = refl

get_by_key_complete_example :
    (ps : List Peer) × ((get_by_key (outside 104) (codes "al ") (codes "key") sample_store).0
      ≡ ok ps)
    × In alice ps
get_by_key_complete_example =
    get_by_key_complete (outside 104) sample_store (codes "al ") (codes "key") (codes "alice")
      sample_store-IsWell (unfold trim_space in refl) (unfold trim_space in refl) alice_found
      alice-key alice_alive

by_key : (get_by_key (outside 104) (codes "al") (codes "key") sample_store).0 ≡ ok (alice ∷ [])
unfolding sample_store serve upsert set_chunk_hash report_chunk upsert_at store_peer scored
    expected_hash peer_by_key verify_peer_signature find_first verify decode_public_key is_expired
    duration_between find put remove ◌>>=◌ continue pure raise reject_if require check get modify
    trim_space normalize_hash to_lower valid_hash_format chunk_key itoa expected_payload
    reported_payload key remove_id unix_now floor_div add64 mul64 wrap ◌+ℤ◌ ◌-ℤ◌ get_by_key
    live_peers
by_key = refl

alice_id : is_empty (trim_space register_alice.id) ≡ false
unfolding trim_space
alice_id = refl

find-upsert_example :
    (p : Peer) × IsRegistered
      (outside 104)
      register_alice
      (find (trim_space register_alice.id) sample_store.peers)
      p
    × ((j : Text)
        → find j (upsert (outside 104) register_alice sample_store).1.peers ≡ (
            if text_eq (trim_space register_alice.id) j then some p else find j sample_store.peers))
find-upsert_example = find-upsert (outside 104) register_alice sample_store alice_id

get_peer-upsert_example :
    (get_peer
      (outside 130)
      (trim_space register_alice.id)
      (upsert (outside 104) register_alice sample_store).1).0
    ≡ (if ltb_ℤ (pos (60 * 1000000000)) ((outside 130).now -ℤ (outside 104).now)
        then err not_found
        else ok (
            registered
              (outside 104)
              register_alice
              (find (trim_space register_alice.id) sample_store.peers)))
get_peer-upsert_example =
    get_peer-upsert (outside 104) (outside 130) register_alice sample_store 60 alice_id refl
      (omega arith) (omega arith) (unfold ◌-ℤ◌ in (omega arith, omega arith))

abbrev register_long : RegisterRequest
register_long = record register_alice { ttl_seconds = pos 10000000000 }

get_peer-upsert_overflow_example :
    (get_peer
      (outside 104)
      (trim_space register_long.id)
      (upsert (outside 104) register_long sample_store).1).0
    ≡ err not_found
get_peer-upsert_overflow_example =
    get_peer-upsert_overflow (outside 104) register_long sample_store 10000000000 alice_id refl
      (omega arith) (omega arith)

get_best_peers-IsBest_example :
    (ps : List Peer) × ((get_best_peers (outside 104) (pos 1) sample_store).0 ≡ ok ps)
    × IsBest sample_store
        (λ p. not (is_expired p (outside 104).now) && not p.fake)
        (pos_part (pos 1))
        ps
get_best_peers-IsBest_example =
    get_best_peers-IsBest (outside 104) sample_store (pos 1) (outside-IsFair 104)
      sample_store-IsWell
