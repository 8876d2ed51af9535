-- ===== src/Handler/Interface.antt =====
-- The interface `Store` of internal/store/store.go, which the handlers use, and the memory store
-- as an instance of it. `Outside` is what a call takes from outside (see Outside).
use muninn.Prelude.{◌≡◌, List, some}
use muninn.Prelude.Int.{ℤ}
use muninn.Text.{Text}
use muninn.Model.{
  Peer, RegisterRequest, RefreshRequest, RegisterChunkRequest, ChunkReportRequest,
  ChunkReportResult, ConfirmChunkRequest, ConfirmChunkResult, ReadChunkRequest, ReadChunkResult,
  ChunkRecord, Signal,
}
use muninn.Outside.{Outside}
use muninn.Score.{Error}
use muninn.Exec.{Exec}
use muninn.Memory.{Memory}
use muninn.Memory.Peers
use muninn.Memory.Ranking
use muninn.Memory.Chunks
use muninn.Memory.Signals
use muninn.Memory.Calls.{Call}
use muninn.Memory.Guards.{error_of, step_error}

pub record Store (S : Type 0) : Type 0 where
  pub upsert : Outside → RegisterRequest → Exec S (Unit {0})
  pub refresh : Outside → RefreshRequest → Exec S (Unit {0})
  pub get : Outside → Text → Exec S Peer
  pub get_by_key : Outside → Text → Text → Exec S (List Peer)
  pub delete : Outside → Text → Exec S (Unit {0})
  pub list : Outside → Exec S (List Peer)
  pub heartbeat : Outside → Text → ℤ → Exec S Peer
  pub set_chunk_hash : Outside → Text → ℤ → RegisterChunkRequest → Exec S (Unit {0})
  pub get_best_peers : Outside → ℤ → Exec S (List Peer)
  pub report_chunk : Outside → Text → ChunkReportRequest → Exec S ChunkReportResult
  pub confirm_chunk : Outside → ConfirmChunkRequest → Exec S ConfirmChunkResult
  pub read_chunk : Outside → ReadChunkRequest → Exec S ReadChunkResult
  pub get_chunks_by_recipient : Outside → Text → ℤ → Exec S (List ChunkRecord)
  pub get_chunks_by_file_id : Outside → Text → Exec S (List ChunkRecord)
  pub get_best_thick_peers : Outside → ℤ → Exec S (List Peer)
  pub set_signal : Outside → Text → Signal → Exec S (Unit {0})
  pub poll_signals : Outside → Text → Exec S (List Signal)
  pub delete_expired_chunks : Outside → Exec S ℤ

abbrev pub memory_store : Store Memory
memory_store = record {
  upsert = Peers.upsert;
  refresh = Peers.refresh;
  get = Peers.get_peer;
  get_by_key = Peers.get_by_key;
  delete = λ o. Peers.delete;
  list = Peers.list;
  heartbeat = Peers.heartbeat;
  set_chunk_hash = Chunks.set_chunk_hash;
  get_best_peers = Ranking.get_best_peers;
  report_chunk = Chunks.report_chunk;
  confirm_chunk = Chunks.confirm_chunk;
  read_chunk = Chunks.read_chunk;
  get_chunks_by_recipient = λ o. Chunks.get_chunks_by_recipient;
  get_chunks_by_file_id = λ o. Chunks.get_chunks_by_file_id;
  get_best_thick_peers = Ranking.get_best_thick_peers;
  set_signal = λ o. Signals.set_signal;
  poll_signals = λ o. Signals.poll_signals;
  delete_expired_chunks = Chunks.delete_expired_chunks;
}

-- A call that returns an error leaves the state as it was.
abbrev pub IsAtomicCall : {S A : Type 0} → Exec S A → Type 0
IsAtomicCall {S} m = (s : S) (e : Error) → error_of (m s).0 ≡ some e → (m s).1 ≡ s

pub record IsAtomic {S : Type 0} (st : Store S) : Type 0 where
  pub upsert : (o : Outside) (req : RegisterRequest) → IsAtomicCall (st.upsert o req)
  pub refresh : (o : Outside) (req : RefreshRequest) → IsAtomicCall (st.refresh o req)
  pub get : (o : Outside) (id : Text) → IsAtomicCall (st.get o id)
  pub get_by_key :
      (o : Outside) (login signature : Text) → IsAtomicCall (st.get_by_key o login signature)
  pub delete : (o : Outside) (id : Text) → IsAtomicCall (st.delete o id)
  pub list : (o : Outside) → IsAtomicCall (st.list o)
  pub heartbeat : (o : Outside) (id : Text) (ttl : ℤ) → IsAtomicCall (st.heartbeat o id ttl)
  pub set_chunk_hash :
      (o : Outside) (f : Text) (i : ℤ) (req : RegisterChunkRequest)
      → IsAtomicCall (st.set_chunk_hash o f i req)
  pub get_best_peers : (o : Outside) (n : ℤ) → IsAtomicCall (st.get_best_peers o n)
  pub report_chunk :
      (o : Outside) (id : Text) (req : ChunkReportRequest) → IsAtomicCall (st.report_chunk o id req)
  pub confirm_chunk :
      (o : Outside) (req : ConfirmChunkRequest) → IsAtomicCall (st.confirm_chunk o req)
  pub read_chunk : (o : Outside) (req : ReadChunkRequest) → IsAtomicCall (st.read_chunk o req)
  pub get_chunks_by_recipient :
      (o : Outside) (id : Text) (from : ℤ) → IsAtomicCall (st.get_chunks_by_recipient o id from)
  pub get_chunks_by_file_id :
      (o : Outside) (id : Text) → IsAtomicCall (st.get_chunks_by_file_id o id)
  pub get_best_thick_peers : (o : Outside) (n : ℤ) → IsAtomicCall (st.get_best_thick_peers o n)
  pub set_signal : (o : Outside) (id : Text) (sig : Signal) → IsAtomicCall (st.set_signal o id sig)
  pub poll_signals : (o : Outside) (id : Text) → IsAtomicCall (st.poll_signals o id)
  pub delete_expired_chunks : (o : Outside) → IsAtomicCall (st.delete_expired_chunks o)

-- The memory store satisfies the law of the interface.
pub memory_store-IsAtomic : IsAtomic memory_store
memory_store-IsAtomic = record {
  upsert = λ o req s e. step_error o s e (Call.upsert req);
  refresh = λ o req s e. step_error o s e (Call.refresh req);
  get = λ o id s e. step_error o s e (Call.get id);
  get_by_key = λ o login signature s e. step_error o s e (Call.get_by_key login signature);
  delete = λ o id s e. step_error o s e (Call.delete id);
  list = λ o s e. step_error o s e Call.list;
  heartbeat = λ o id ttl s e. step_error o s e (Call.heartbeat id ttl);
  set_chunk_hash = λ o f i req s e. step_error o s e (Call.set_chunk_hash f i req);
  get_best_peers = λ o n s e. step_error o s e (Call.get_best_peers n);
  report_chunk = λ o id req s e. step_error o s e (Call.report_chunk id req);
  confirm_chunk = λ o req s e. step_error o s e (Call.confirm_chunk req);
  read_chunk = λ o req s e. step_error o s e (Call.read_chunk req);
  get_chunks_by_recipient =
      λ o id from s e. step_error o s e (Call.get_chunks_by_recipient id from);
  get_chunks_by_file_id = λ o id s e. step_error o s e (Call.get_chunks_by_file_id id);
  get_best_thick_peers = λ o n s e. step_error o s e (Call.get_best_thick_peers n);
  set_signal = λ o id sig s e. step_error o s e (Call.set_signal id sig);
  poll_signals = λ o id s e. step_error o s e (Call.poll_signals id);
  delete_expired_chunks = λ o s e. step_error o s e Call.delete_expired_chunks;
}
