-- ===== src/Memory/Calls.antt =====
-- The methods of the interface `Store` as one type of calls on the memory store, and a run of
-- calls one after the other. Every method but `Refresh` holds the store's lock, so that a use of
-- the store by several clients is such a run as long as no other method overlaps with a `Refresh`.
use muninn.Prelude.{List, [], ◌∷◌, All}
use muninn.Prelude.Int.{ℤ}
use muninn.Text.{Text}
use muninn.Model.{
  RegisterRequest, RefreshRequest, RegisterChunkRequest, ChunkReportRequest, ConfirmChunkRequest,
  ReadChunkRequest, Signal,
}
use muninn.Outside.{Outside, IsFair}
use muninn.Memory.{Memory}
use muninn.Memory.Peers
use muninn.Memory.Ranking
use muninn.Memory.Chunks
use muninn.Memory.Signals

pub data Call : Type 0 where
  upsert : RegisterRequest → Call
  refresh : RefreshRequest → Call
  get : Text → Call
  get_by_key : Text → Text → Call
  delete : Text → Call
  list : Call
  heartbeat : Text → ℤ → Call
  set_chunk_hash : Text → ℤ → RegisterChunkRequest → Call
  get_best_peers : ℤ → Call
  report_chunk : Text → ChunkReportRequest → Call
  confirm_chunk : ConfirmChunkRequest → Call
  read_chunk : ReadChunkRequest → Call
  get_chunks_by_recipient : Text → ℤ → Call
  get_chunks_by_file_id : Text → Call
  get_best_thick_peers : ℤ → Call
  set_signal : Text → Signal → Call
  poll_signals : Text → Call
  delete_expired_chunks : Call

-- The state behind a call.
abbrev pub step : Outside → Call → Memory → Memory
step o (upsert req) s = (Peers.upsert o req s).1
step o (refresh req) s = (Peers.refresh o req s).1
step o (get id) s = (Peers.get_peer o id s).1
step o (get_by_key login signature) s = (Peers.get_by_key o login signature s).1
step o (delete id) s = (Peers.delete id s).1
step o list s = (Peers.list o s).1
step o (heartbeat id ttl) s = (Peers.heartbeat o id ttl s).1
step o (set_chunk_hash file_id index req) s = (Chunks.set_chunk_hash o file_id index req s).1
step o (get_best_peers n) s = (Ranking.get_best_peers o n s).1
step o (report_chunk id req) s = (Chunks.report_chunk o id req s).1
step o (confirm_chunk req) s = (Chunks.confirm_chunk o req s).1
step o (read_chunk req) s = (Chunks.read_chunk o req s).1
step o (get_chunks_by_recipient id from) s = (Chunks.get_chunks_by_recipient id from s).1
step o (get_chunks_by_file_id id) s = (Chunks.get_chunks_by_file_id id s).1
step o (get_best_thick_peers n) s = (Ranking.get_best_thick_peers o n s).1
step o (set_signal id sig) s = (Signals.set_signal id sig s).1
step o (poll_signals id) s = (Signals.poll_signals id s).1
step o delete_expired_chunks s = (Chunks.delete_expired_chunks o s).1

abbrev pub Run : Type 0
Run = List (Outside × Call)

unfoldable pub serve : Run → Memory → Memory
serve [] s = s
serve ((o, c) ∷ run) s = serve run (step o c s)

-- Every `range` of the run meets every peer once.
abbrev pub IsFairRun : Run → Type 0
IsFairRun = All (λ (e : Outside × Call). IsFair e.0)

-- What every call keeps, a run keeps.
pub serve_induction {ℓ} :
    (P : Memory → Type ℓ)
    → ((o : Outside) (c : Call) (s : Memory) → IsFair o → P s → P (step o c s))
    → (run : Run) (s : Memory) → IsFairRun run
    → P s
    → P (serve run s)
unfolding serve
serve_induction P keeps [] s _ h = h
serve_induction P keeps ((o, c) ∷ run) s (fair, rest) h =
    serve_induction P keeps run (step o c s) rest (keeps o c s fair h)
