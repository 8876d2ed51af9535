-- ===== src/Tests/Database.antt =====
-- Tests and examples of the database store: a server that never fails, two live peers, an expired
-- one and a chunk.
use mathlib.Core.List.Permᴰ
use muninn.Prelude.{◌==◌, ℕ, ◌≡◌, refl, none, [], ◌∷◌, map, if◌then◌else◌, some}
use muninn.Prelude.Int.{pos, wrap, mul64, ◌+ℤ◌, ◌-ℤ◌, ◌*ℤ◌, floor_div}
use muninn.Text.{codes, trim_space, to_lower, text_eq}
use muninn.Text.Split.{split2}
use muninn.Text.Decimal.{itoa}
use muninn.Model.{thick, RefreshRequest}
use muninn.Hash.{normalize_hash, valid_hash_format}
use muninn.Sign.{verify, decode_public_key, expected_payload, reported_payload}
use muninn.Score.{Error, wrapped, not_found, other}
use muninn.Action.{
  done, failed, ◌>>=◌, continue, pure, reject_if, require, check, or_panic, get, modify,
  replace_error,
}
use muninn.Action
use muninn.Memory.{is_expired, duration_between, verify_peer_signature}
use muninn.Memory.Calls.{Call}
use muninn.Database.{
  Database, PeerRow, Server, IsFairServer, empty_database, statement, update_where, get_peer_by_id,
  get_peer_by_key,
}
use muninn.Database.Peers.{refresh}
use muninn.Database.Chunks.{set_chunk_hash}
use muninn.Database.Reports.{report_chunk}
use muninn.Database.Calls.{Run, step, serve, outcome}
use muninn.Database.Invariant.{IsWellFormed, serve-IsWellFormed}
use muninn.Database.Guards.{step-Leftover}
use muninn.Database.Guards.Failures.{Leftover}
use muninn.Outside.{unix_now}
use muninn.Database.Guards.Signed.{IsAuthorised, accepted-IsAuthorised}
use muninn.Tests.{outside, register_alice, register_bob, chunk_request, report_request, first_hash}

abbrev pub server : ℕ → Server
server t = record {
  outside = outside t;
  fails = λ i. none;
  peer_order = λ i rows. rows;
  chunk_order = λ i rows. rows;
  signal_order = λ i rows. rows;
  clock = pos t;
}

pub server-IsFairServer : (t : ℕ) → IsFairServer (server t)
server-IsFairServer t = record {
  peer_perm = λ i rows. Permᴰ.refl rows;
  chunk_perm = λ i rows. Permᴰ.refl rows;
  signal_perm = λ i rows. Permᴰ.refl rows;
}

abbrev pub alice_row : PeerRow
alice_row = record {
  id = codes "alice";
  key = codes "al:key";
  encryption_key = [];
  signature_key = codes "key";
  last_seen = pos 100;
  ttl_seconds = pos 60;
  quality_score = pos 1000;
  quality_valid = pos 0;
  quality_invalid = pos 0;
  peer_flag = thick;
  is_fake = pos 0;
  login = codes "al";
}

abbrev pub sample_database : Database
sample_database = record {
  peers =
      alice_row
      ∷ record alice_row { id = codes "bob"; key = codes "bo:key"; login = codes "bo" }
      ∷ record alice_row { id = codes "carol"; last_seen = pos 0 }
      ∷ [];
  chunks =
      record {
        file_id = codes "f";
        chunk_index = pos 0;
        expected_hash = first_hash;
        sender_id = codes "al:key";
        recipient_id = codes "bo:key";
        holder_peer_id = codes "alice";
        persist = pos 0;
        confirmed = pos 0;
        readed = pos 0;
        created_at = pos 100;
        updated_at = pos 100;
        ttl = pos 10;
      }
      ∷ [];
  signals = [];
}

abbrev sample_run : Run
sample_run =
    (server 100, Call.upsert register_alice)
    ∷ (server 101, Call.upsert register_bob)
    ∷ (server 102, Call.set_chunk_hash (codes "f") (pos 0) chunk_request)
    ∷ (server 103, Call.report_chunk (codes "alice") report_request)
    ∷ []

serve-IsWellFormed_example : IsWellFormed (serve (codes "sqlite") sample_run empty_database)
serve-IsWellFormed_example = serve-IsWellFormed (codes "sqlite") sample_run (
  server-IsFairServer 100,
  (server-IsFairServer 101, (server-IsFairServer 102, (server-IsFairServer 103, tt))),
)

chunk_accepted :
    outcome
      (server 104)
      (codes "sqlite")
      (Call.set_chunk_hash (codes "f") (pos 1) chunk_request)
      sample_database
    ≡ done tt
unfolding set_chunk_hash statement get_peer_by_key ◌>>=◌ continue pure reject_if require check
    or_panic get modify replace_error verify_peer_signature verify decode_public_key is_expired
    duration_between split2 trim_space normalize_hash to_lower valid_hash_format itoa
    expected_payload mul64 wrap ◌+ℤ◌ ◌-ℤ◌ ◌*ℤ◌
chunk_accepted = refl

accepted-IsAuthorised_example :
    IsAuthorised
      (server 104)
      (Call.set_chunk_hash (codes "f") (pos 1) chunk_request)
      sample_database
accepted-IsAuthorised_example =
    accepted-IsAuthorised (server 104) (codes "sqlite") sample_database (server-IsFairServer 104)
      (Call.set_chunk_hash (codes "f") (pos 1) chunk_request) chunk_accepted

abbrev lost_source : Error
lost_source = wrapped (codes "get updated peer: ") not_found

-- Carol has expired: the report is counted for her all the same.
report_fails :
    outcome
      (server 104)
      (codes "sqlite")
      (Call.report_chunk (codes "carol") report_request)
      sample_database
    ≡ failed lost_source
unfolding report_chunk statement get_peer_by_id ◌>>=◌ continue pure reject_if require check get
    modify replace_error Action.wrap verify_peer_signature verify decode_public_key is_expired
    duration_between trim_space normalize_hash update_where to_lower valid_hash_format itoa
    reported_payload mul64 wrap ◌+ℤ◌ ◌-ℤ◌ ◌*ℤ◌
report_fails = refl

step-Leftover_example :
    Leftover
      (server 104)
      (codes "sqlite")
      (Call.report_chunk (codes "carol") report_request)
      sample_database
      (step
        (server 104)
        (codes "sqlite")
        (Call.report_chunk (codes "carol") report_request)
        sample_database)
step-Leftover_example =
    step-Leftover (server 104) (codes "sqlite") sample_database lost_source
      (server-IsFairServer 104) (Call.report_chunk (codes "carol") report_request) report_fails

-- Alice's row with its key is beaten; a key that is not hers changes nothing.
abbrev refresh_alice : RefreshRequest
refresh_alice = record { id = codes "alice"; login = codes "al"; signature_key = codes "key" }

alice_refreshed :
    (refresh (server 104) refresh_alice sample_database).1.peers
    ≡ map
        (λ row. if text_eq row.id (codes "alice") then record row { last_seen = pos 104 } else row)
        sample_database.peers
unfolding refresh statement ◌>>=◌ continue pure reject_if check get modify trim_space update_where
    unix_now floor_div
alice_refreshed = refl

alice_kept :
    (refresh (server 104) (record refresh_alice { login = codes "bo" }) sample_database).1
    ≡ sample_database
unfolding refresh statement ◌>>=◌ continue pure reject_if check get modify trim_space update_where
    unix_now floor_div
alice_kept = refl

-- A database that refuses the statement for the comma in it.
refresh_refused :
    refresh
      (record (server 104) { fails = λ i. if i == 1 then some (codes "syntax error") else none })
      refresh_alice
      sample_database
    ≡ (failed (wrapped (codes "refresh peer: ") (other (codes "syntax error"))), sample_database)
unfolding refresh statement ◌>>=◌ continue pure reject_if check get modify trim_space
refresh_refused = refl
