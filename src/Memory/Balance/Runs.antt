-- ===== src/Memory/Balance/Runs.antt =====
-- The scores and counters along a run of calls of the memory store.
use muninn.Prelude.{◌≡◌, some}
use muninn.Text.{Text}
use muninn.Model.{Peer}
use muninn.Outside.{Outside, IsFair}
use muninn.Assoc.{find}
use muninn.Memory.{Memory, new_memory}
use muninn.Memory.Chunks.Outcome.{set_chunk_hash_outcome}
use muninn.Memory.Chunks.Reports.{read_chunk_outcome}
use muninn.Memory.Signals.Outcome.{set_signal_outcome, poll_signals_outcome}
use muninn.Memory.Queries
use muninn.Memory.Calls.{Call, step, serve, Run, IsFairRun, serve_induction}
use muninn.Memory.Invariant.{IsWell}
use muninn.Memory.Invariant.Steps.{step-IsWell, new_memory-IsWell}
use muninn.Memory.Balance.{
  IsBalanced, IsBalancedStore, upsert-IsBalanced, refresh-IsBalanced, delete-IsBalanced,
  heartbeat-IsBalanced, report_chunk-IsBalanced, confirm_chunk-IsBalanced,
  delete_expired_chunks-IsBalanced,
}

step-IsBalanced :
    (o : Outside) (c : Call) (s : Memory)
    → IsFair o
    → IsWell s
    → IsBalancedStore s
    → IsBalancedStore (step o c s)
step-IsBalanced o (Call.upsert req) s fair w h = upsert-IsBalanced s h o req
step-IsBalanced o (Call.refresh req) s fair w h = refresh-IsBalanced s h o req
step-IsBalanced o (Call.get id) s fair w h = rw Queries.get_peer-state h
step-IsBalanced o (Call.get_by_key login signature) s fair w h = rw Queries.get_by_key-state h
step-IsBalanced o (Call.delete id) s fair w h = delete-IsBalanced s h id
step-IsBalanced o Call.list s fair w h = rw Queries.list-state h
step-IsBalanced o (Call.heartbeat id ttl) s fair w h = heartbeat-IsBalanced s h o id ttl
step-IsBalanced o (Call.set_chunk_hash f i req) s fair w h =
    set_chunk_hash_outcome o f i req s (λ r. IsBalancedStore r.1) (λ _. h) (λ _ _ _ _. h)
step-IsBalanced o (Call.get_best_peers n) s fair w h = rw Queries.get_best_peers-state h
step-IsBalanced o (Call.report_chunk id req) s fair w h = report_chunk-IsBalanced s h o id req
step-IsBalanced o (Call.confirm_chunk req) s fair w h = confirm_chunk-IsBalanced s h o req fair w
step-IsBalanced o (Call.read_chunk req) s fair w h =
    read_chunk_outcome o req s (λ r. IsBalancedStore r.1) (λ _. h) (λ _ _ _. (λ _ _. h, λ _. h))
step-IsBalanced o (Call.get_chunks_by_recipient id from) s fair w h =
    rw Queries.get_chunks_by_recipient-state h
step-IsBalanced o (Call.get_chunks_by_file_id id) s fair w h =
    rw Queries.get_chunks_by_file_id-state h
step-IsBalanced o (Call.get_best_thick_peers n) s fair w h = rw Queries.get_best_thick_peers-state h
step-IsBalanced o (Call.set_signal id sig) s fair w h =
    set_signal_outcome id sig s (λ r. IsBalancedStore r.1) (λ _. h) (λ _ _. h) (λ _ _ _. h)
step-IsBalanced o (Call.poll_signals id) s fair w h =
    poll_signals_outcome id s (λ r. IsBalancedStore r.1) (λ _. h) (λ _. h)
step-IsBalanced o Call.delete_expired_chunks s fair w h = delete_expired_chunks-IsBalanced s h o

-- After any run of calls from an empty store, each with its own clock, map order and requests, the
-- score of every stored peer is 1000 plus its valid reports minus its invalid ones, each in the
-- arithmetic of 64 bits.
pub serve-IsBalanced :
    (run : Run)
    → IsFairRun run
    → (id : Text) (p : Peer) → find id (serve run new_memory).peers ≡ some p
    → IsBalanced p
serve-IsBalanced run fair =
    (serve_induction (λ s. IsWell s × IsBalancedStore s)
      (λ o c s f (w, h). (step-IsWell o c s f w, step-IsBalanced o c s f w h)) run new_memory fair
      (new_memory-IsWell, (unfold find in λ id p e. cc))).1
