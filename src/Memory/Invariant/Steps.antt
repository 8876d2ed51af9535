-- ===== src/Memory/Invariant/Steps.antt =====
-- Each call keeps the invariant.
use muninn.Prelude.{refl, Bool, true, false, arith, All, All-append, if◌then◌else◌}
use muninn.Prelude.Int.{ℤ, pos, ◌<ℤ◌}
use muninn.Text.{Text, trim_space}
use muninn.Model.{
  Peer, RegisterRequest, RefreshRequest, RegisterChunkRequest, ChunkReportRequest,
  ConfirmChunkRequest, ReadChunkRequest, Signal, key,
}
use muninn.Outside.{Outside, IsFair, unix_now}
use muninn.Assoc.{find}
use muninn.Memory.{Memory, ChunkRecordEntry, new_memory}
use muninn.Memory.Lookup.{peer_by_key_sound}
use muninn.Memory.Directory.{remove-IsDirectory, drop_login_keeps}
use muninn.Memory.Entries.{
  IsEntry, new_entry-IsEntry, update_first-IsEntry, mark_read-IsEntry, keep-All,
}
use muninn.Memory.Peers.{upsert, refresh, delete, heartbeat}
use muninn.Memory.Peers.Outcome.{
  upsert_outcome, refresh_outcome, delete_outcome, heartbeat_outcome, beating,
}
use muninn.Memory.Chunks.{
  set_chunk_hash, report_chunk, confirm_chunk, read_chunk, delete_expired_chunks, update_first,
  confirm_entry,
}
use muninn.Memory.Chunks.Outcome.{set_chunk_hash_outcome}
use muninn.Memory.Chunks.Reports.{
  report_chunk_outcome, confirm_chunk_outcome, read_chunk_outcome, is_confirmed_entry,
  is_read_message, after_read,
}
use muninn.Memory.Signals.{set_signal, poll_signals}
use muninn.Memory.Signals.Outcome.{
  set_signal_outcome, poll_signals_outcome, delete_expired_chunks_outcome,
}
use muninn.Memory.Queries
use muninn.Memory.Calls.{Call, step, serve, Run, IsFairRun, serve_induction}
use muninn.Memory.Invariant.{
  IsWell, rewrite-IsDirectory, score-IsDirectory, upsert_at-IsDirectory, upsert_at-chunks,
  refresh_at-IsWell,
}

module _ (o : Outside) {s : Memory} (h : IsWell s) where
  upsert-IsWell : (req : RegisterRequest) → IsWell (upsert o req s).1
  upsert-IsWell req =
      let id = trim_space req.id in
      upsert_outcome o req s (λ r. IsWell r.1) (λ _. h)
        λ _. record {
          directory = upsert_at-IsDirectory o req id (find id s.peers) s h.directory;
          entries = rw upsert_at-chunks h.entries;
        }

  refresh-IsWell : (req : RefreshRequest) → IsWell (refresh o req s).1
  refresh-IsWell req =
      let id = trim_space req.id in
      refresh_outcome o req s (λ r. IsWell r.1) (λ _. h)
        λ _. refresh_at-IsWell o req id (find id s.peers) s refl h

  delete-IsWell : (id : Text) → IsWell (delete id s).1
  delete-IsWell id =
      delete_outcome id s (λ r. IsWell r.1) (λ _. h)
        λ p found. record {
          directory = remove-IsDirectory h.directory id _ (drop_login_keeps (key p) id s.logins);
          entries = h.entries;
        }

  beating_ttl :
      (ttl : ℤ) (p : Peer) → pos 0 <ℤ p.ttl_seconds → pos 0 <ℤ (beating o ttl p).ttl_seconds
  beating_ttl ttl p positive = ground arith

  heartbeat-IsWell : (id : Text) (ttl : ℤ) → IsWell (heartbeat o id ttl s).1
  heartbeat-IsWell id ttl =
      heartbeat_outcome o id ttl s (λ r. IsWell r.1) (λ _. h)
        λ p found. record {
          directory =
              rewrite-IsDirectory id p (beating o ttl p) h.directory found refl (unfold key in refl)
                (beating_ttl ttl p (h.directory.ttl id p found));
          entries = h.entries;
        }

  set_chunk_hash-IsWell :
      (f : Text) (i : ℤ) (req : RegisterChunkRequest) → IsWell (set_chunk_hash o f i req s).1
  set_chunk_hash-IsWell f i req =
      set_chunk_hash_outcome o f i req s (λ r. IsWell r.1) (λ _. h)
        λ _ good _ _. record {
          directory = h.directory;
          entries = All-append IsEntry s.chunks _ h.entries (new_entry-IsEntry o f i req good, tt);
        }

  report_chunk-IsWell : (id : Text) (req : ChunkReportRequest) → IsWell (report_chunk o id req s).1
  report_chunk-IsWell id req =
      report_chunk_outcome o id req s (λ r. IsWell r.1) (λ _. h)
        λ _ p _ _ _ found. record {
          directory = score-IsDirectory (trim_space id) p _ h.directory found;
          entries = h.entries;
        }

  confirmed_entries :
      (test : ChunkRecordEntry → Bool) (now : ℤ) (b : Bool)
      → All IsEntry (if b then update_first test (confirm_entry now) s.chunks else s.chunks)
  confirmed_entries test now true = update_first-IsEntry test now s.chunks h.entries
  confirmed_entries test now false = h.entries

  confirm_chunk-IsWell : IsFair o → (req : ConfirmChunkRequest) → IsWell (confirm_chunk o req s).1
  confirm_chunk-IsWell fair req =
      confirm_chunk_outcome o req s (λ r. IsWell r.1) (λ _. h)
        λ _ p e _ _ _ found. record {
          directory =
              score-IsDirectory p.id p _ h.directory
                (peer_by_key_sound o 1 e.sender_id s fair h.directory.distinct h.directory.named
                  found).0;
          entries = confirmed_entries (is_confirmed_entry o req s) (unix_now o) _;
        }

  read_chunk-IsWell : (req : ReadChunkRequest) → IsWell (read_chunk o req s).1
  read_chunk-IsWell req =
      let read : IsWell (after_read o req s) = record {
        directory = h.directory;
        entries = mark_read-IsEntry (is_read_message o req s) (unix_now o) s.chunks h.entries;
      } in
      read_chunk_outcome o req s (λ r. IsWell r.1) (λ _. h) λ _ _ _. (λ _ _. read, λ _. read)

  set_signal-IsWell : (id : Text) (sig : Signal) → IsWell (set_signal id sig s).1
  set_signal-IsWell id sig =
      set_signal_outcome id sig s (λ r. IsWell r.1) (λ _. h) (λ _ _. h)
        λ _ _ _. record { directory = h.directory; entries = h.entries }

  poll_signals-IsWell : (id : Text) → IsWell (poll_signals id s).1
  poll_signals-IsWell id =
      poll_signals_outcome id s (λ r. IsWell r.1) (λ _. h)
        λ _. record { directory = h.directory; entries = h.entries }

  delete_expired_chunks-IsWell : IsWell (delete_expired_chunks o s).1
  delete_expired_chunks-IsWell =
      rw delete_expired_chunks_outcome
        (record { directory = h.directory; entries = keep-All IsEntry _ s.chunks h.entries })

pub step-IsWell : (o : Outside) (c : Call) (s : Memory) → IsFair o → IsWell s → IsWell (step o c s)
step-IsWell o (Call.upsert req) s fair h = upsert-IsWell o h req
step-IsWell o (Call.refresh req) s fair h = refresh-IsWell o h req
step-IsWell o (Call.get id) s fair h = rw Queries.get_peer-state h
step-IsWell o (Call.get_by_key login signature) s fair h = rw Queries.get_by_key-state h
step-IsWell o (Call.delete id) s fair h = delete-IsWell o h id
step-IsWell o Call.list s fair h = rw Queries.list-state h
step-IsWell o (Call.heartbeat id ttl) s fair h = heartbeat-IsWell o h id ttl
step-IsWell o (Call.set_chunk_hash f i req) s fair h = set_chunk_hash-IsWell o h f i req
step-IsWell o (Call.get_best_peers n) s fair h = rw Queries.get_best_peers-state h
step-IsWell o (Call.report_chunk id req) s fair h = report_chunk-IsWell o h id req
step-IsWell o (Call.confirm_chunk req) s fair h = confirm_chunk-IsWell o h fair req
step-IsWell o (Call.read_chunk req) s fair h = read_chunk-IsWell o h req
step-IsWell o (Call.get_chunks_by_recipient id from) s fair h =
    rw Queries.get_chunks_by_recipient-state h
step-IsWell o (Call.get_chunks_by_file_id id) s fair h = rw Queries.get_chunks_by_file_id-state h
step-IsWell o (Call.get_best_thick_peers n) s fair h = rw Queries.get_best_thick_peers-state h
step-IsWell o (Call.set_signal id sig) s fair h = set_signal-IsWell o h id sig
step-IsWell o (Call.poll_signals id) s fair h = poll_signals-IsWell o h id
step-IsWell o Call.delete_expired_chunks s fair h = delete_expired_chunks-IsWell o h

pub new_memory-IsWell : IsWell new_memory
unfolding find
new_memory-IsWell = record {
  directory = record {
    distinct = tt;
    named = λ id p e. cc;
    ttl = λ id p e. cc;
    listed = λ id p e. cc;
  };
  entries = tt;
}

-- After any run of calls from an empty store, each with its own clock, map order and requests: no
-- id stands twice in the store, each peer stands under its own id with a positive time to live,
-- the login list of its key holds its id, and each chunk entry has a chunk's key with a file and
-- an index from 0 on, a well-formed hash, a sender, a recipient, a holder and a positive time to
-- live.
pub serve-IsWell : (run : Run) → IsFairRun run → IsWell (serve run new_memory)
serve-IsWell run fair = serve_induction IsWell step-IsWell run new_memory fair new_memory-IsWell
