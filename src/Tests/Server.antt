-- ===== src/Tests/Server.antt =====
-- Tests and examples of the handlers and of the relay of signals.
use muninn.Prelude.{◌≡◌, refl, true, false, none, some, [], ◌∷◌, ◌++◌, arith, if◌then◌else◌}
use muninn.Prelude.Int.{ℤ, pos}
use muninn.Text.{Text, codes, trim_space, text_eq}
use muninn.Model.{RegisterChunkBatchEntry, RegisterChunkBatchRequest}
use muninn.Assoc.{find}
use muninn.Exec.{◌>>=◌, continue, pure, raise, require, get, modify}
use muninn.Memory.{Memory, new_memory}
use muninn.Memory.Peers.{list_at, delete}
use muninn.Handler.{call, refuse_if, write_store_error}
use muninn.Handler.Interface.{memory_store, memory_store-IsAtomic}
use muninn.Handler.Requests.{Request, handle}
use muninn.Handler.Refusals.{refused_keeps}
use muninn.Handler.Peers.{handle_delete}
use muninn.Handler.Batches.{handle_register_chunk_batch}
use muninn.Handler.Batches.Prefix.{IsPrefixRun, handle_register_chunk_batch-IsPrefixRun}
use muninn.Signalling.{
  Wire, Hub, RpcRequest, handle_signal_relay, connect, disconnect, signal_relay,
}
use muninn.Signalling.Relay.{IsDelivery, handle_signal_relay-IsDelivery}
use muninn.Signalling.Connections.{frames, connect_lem, disconnect-connect}
use muninn.Tests.{outside, first_hash, sample_store}

zed_refused :
    (handle memory_store (outside 104) (Request.delete (codes "zed")) new_memory).0.status ≡ 404
unfolding handle_delete refuse_if call write_store_error delete ◌>>=◌ continue pure raise require
    get modify find
zed_refused = refl

refused_keeps_example :
    (handle memory_store (outside 104) (Request.delete (codes "zed")) new_memory).1 ≡ new_memory
refused_keeps_example =
    refused_keeps memory_store memory_store-IsAtomic (outside 104) new_memory
      (Request.delete (codes "zed")) (omega (arith, zed_refused))

abbrev batch_entry : ℤ → Text → RegisterChunkBatchEntry
batch_entry i hash = record {
  chunk_index = i;
  sender_id = codes "al:key";
  recipient_id = codes "bo:key";
  hash = hash;
  signature = codes "sig";
  peer_id = codes "alice";
  persist = false;
  ttl = pos 60;
}

-- The second entry has no well-formed hash.
abbrev batch : RegisterChunkBatchRequest
batch = record { chunks = batch_entry (pos 1) first_hash ∷ batch_entry (pos 2) (codes "0") ∷ [] }

handle_register_chunk_batch-IsPrefixRun_example :
    IsPrefixRun
      (λ i. outside 104)
      (codes "f")
      batch.chunks
      sample_store
      (handle_register_chunk_batch memory_store
        (λ i. outside 104)
        (codes "f")
        (some batch)
        sample_store)
handle_register_chunk_batch-IsPrefixRun_example =
    handle_register_chunk_batch-IsPrefixRun (λ i. outside 104) (codes "f") batch sample_store

-- Every write succeeds; all parameters name alice.
abbrev wire : Wire
wire = record {
  delivers = λ i c. true;
  relay_params = λ t.
      some
        (record { target_id = codes "alice"; from = codes "bob"; type = codes "answer"; body = t });
  connect_params = λ t. some (record { target_id = codes "alice"; offer = t });
}

abbrev hub : Hub Memory
hub = record { store = sample_store; conns = (codes "alice", 1) ∷ (codes "bob", 2) ∷ []; sent = [] }

abbrev rpc : RpcRequest
rpc = record { id = codes "7"; method = signal_relay; params = codes "sdp" }

handle_signal_relay-IsDelivery_example :
    IsDelivery wire
      (codes "bob")
      (codes "7")
      (codes "alice")
      (record { from = codes "bob"; type = codes "answer"; body = codes "sdp" })
      hub
      (handle_signal_relay wire memory_store (outside 104) (codes "bob") rpc hub)
handle_signal_relay-IsDelivery_example =
    handle_signal_relay-IsDelivery wire (outside 104) (codes "bob") rpc hub
      (record {
        target_id = codes "alice";
        from = codes "bob";
        type = codes "answer";
        body = codes "sdp";
      })
      refl

connect_lem_example :
    (connect wire memory_store (outside 104) (codes "bob") 3 hub).sent
    ≡ hub.sent ++ frames 3 (list_at (trim_space (codes "bob")) hub.store.signals)
connect_lem_example =
    connect_lem wire (outside 104) (codes "bob") 3 hub (unfold trim_space in refl) (λ j. refl)

disconnect-connect_example :
    let both =
      connect wire memory_store
        (outside 105)
        (codes "bob")
        4
        (connect wire memory_store (outside 104) (codes "bob") 3 hub) in
    (find (codes "bob") both.conns ≡ some 4)
    × ((j : Text)
        → find j (disconnect (codes "bob") both).conns
          ≡ (if text_eq (codes "bob") j then none else find j hub.conns))
disconnect-connect_example =
    disconnect-connect wire wire (outside 104) (outside 105) (codes "bob") 3 4 hub
