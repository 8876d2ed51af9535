-- ===== src/Tests.antt =====
-- Test data: an outside world with a clock, two peers and a short run of calls.
pub mod Store
pub mod Chunks
pub mod Server
pub mod Codes
pub mod Database
pub mod Lookup
pub mod Reported
pub mod Confirmed
pub mod Agreement
pub mod Migration
use mathlib.Core.List.Permᴰ
use mathlib.Core.List.{Permᴰ}
use muninn.Prelude.{
  ℕ, zero, suc, ◌*◌, Bool, true, false, none, some, List, [], ◌∷◌, if◌then◌else◌, ◌≡◌,
}
use muninn.Prelude.Int.{ℤ, pos}
use muninn.Text.{Text, codes, text_eq}
use muninn.Model.{RegisterRequest, RegisterChunkRequest, ChunkReportRequest, thick}
use muninn.Outside.{Outside, IsFair}
use muninn.Memory.{Memory, new_memory}
use muninn.Memory.Calls.{Call, Run, IsFairRun, serve}
use muninn.Memory.Invariant.{IsWell}
use muninn.Memory.Invariant.Steps.{serve-IsWell}

abbrev zeros : ℕ → List ℕ
zeros zero = []
zeros (suc n) = 0 ∷ zeros n

-- At `t` seconds: a map is walked as it stands, `key` decodes to a key and any other text to a
-- signature, which is accepted.
abbrev pub outside : ℕ → Outside
outside t = record {
  now = pos (t * 1000000000);
  order = λ i m. m;
  lower_wide = λ c. c;
  decode_base64 = λ b. if text_eq b (codes "key") then some (zeros 32) else some (zeros 64);
  ed25519_verify = λ k m g. true;
}

pub outside-IsFair : (t : ℕ) → IsFair (outside t)
outside-IsFair t = record { order_perm = λ i m. Permᴰ.refl m }

abbrev pub register_alice : RegisterRequest
register_alice = record {
  id = codes " alice ";
  login = codes "al";
  encryption_key = [];
  signature_key = codes "key";
  ttl_seconds = pos 60;
  peer_flag = thick;
  fake = none;
}

abbrev pub register_bob : RegisterRequest
register_bob = record register_alice { id = codes "bob"; login = codes "bo"; fake = some false }

abbrev pub first_hash : Text
first_hash = codes "0123456789abcdef"

abbrev pub chunk_request : RegisterChunkRequest
chunk_request = record {
  sender_id = codes "al:key";
  recipient_id = codes "bo:key";
  hash = first_hash;
  signature = codes "sig";
  peer_id = codes "alice";
  persist = false;
  ttl = pos 0;
}

abbrev pub report_request : ChunkReportRequest
report_request = record {
  reporter_id = codes "bob";
  file_id = codes "f";
  chunk_index = pos 0;
  hash = first_hash;
  signature = codes "sig";
}

abbrev pub sample_run : Run
sample_run =
    (outside 100, Call.upsert register_alice)
    ∷ (outside 101, Call.upsert register_bob)
    ∷ (outside 102, Call.set_chunk_hash (codes "f") (pos 0) chunk_request)
    ∷ (outside 103, Call.report_chunk (codes "alice") report_request)
    ∷ []

pub sample_run-IsFairRun : IsFairRun sample_run
sample_run-IsFairRun =
    (outside-IsFair 100, (outside-IsFair 101, (outside-IsFair 102, (outside-IsFair 103, tt))))

-- The store behind the run.
unfoldable pub sample_store : Memory
unfolding serve
sample_store = serve sample_run new_memory

pub sample_store-IsWell : IsWell sample_store
unfolding sample_store
sample_store-IsWell = serve-IsWell sample_run sample_run-IsFairRun
