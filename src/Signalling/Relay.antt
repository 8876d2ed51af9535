-- ===== src/Signalling/Relay.antt =====
-- Where a relayed signal goes.
use muninn.Prelude.{
  ℕ, ◌≡◌, refl, true, Option, none, some, [], ◌∷◌, ◌++◌, ◌⊎◌, inl, inr, Bool-cases,
}
use muninn.Text.{Text, codes, trim_space}
use muninn.Model.{Signal}
use muninn.Outside.{Outside}
use muninn.Score.{Error}
use muninn.Assoc.{find}
use muninn.Memory.{Memory}
use muninn.Memory.Signals.Outcome.{set_signal_outcome, with_signal}
use muninn.Handler.{error_text}
use muninn.Handler.Interface.{memory_store}
use muninn.Signalling.{
  Wire, Hub, Frame, RpcRequest, SignalRelayRequest, ConnectToPeerRequest, send_result, send_error,
  send_notification, write_to, write, queue, after_store, after_notification, deliver,
  handle_signal_relay, handle_connect_to_peer,
}

-- The signal was written once on the target's connection, and the store is as it was; or it was
-- added to the target's queue, and not written; or neither, and the sender is told of an error.
-- The sender is told of the success of the first two. After that nothing but the answer to the
-- sender is written.
abbrev pub IsDelivery : Wire → Text → Text → Text → Signal → Hub Memory → Hub Memory → Type 0
IsDelivery w from req_id target sig h h' =
    ((c : ℕ) × (find target h.conns ≡ some c)
      × (w.delivers 0 c ≡ true)
      × (h'
          ≡ send_result w 1 from req_id
              (record h { sent = h.sent ++ (c, Frame.incoming sig) ∷ [] })))
    ⊎ (h'
        ≡ send_result w 1 from req_id
            (record h { store = with_signal (trim_space target) sig h.store }))
    ⊎ ((e : Error) × (h' ≡ send_error w 1 from req_id (codes "store signal: " ++ error_text e) h))

module _ (w : Wire) (o : Outside) (from : Text) (req_id target : Text) (sig : Signal)
    (h : Hub Memory) where
  queue-IsDelivery :
      IsDelivery w from req_id target sig h (queue w memory_store o from req_id target sig h)
  queue-IsDelivery =
      set_signal_outcome target sig h.store
        (λ r.
          IsDelivery w from req_id target sig h
            (after_store w from req_id r.0 (record h { store = r.1 })))
        (λ _. inr (inr (_, refl))) (λ _ _. inr (inr (_, refl))) (λ _ _ _. inr (inl refl))

  notified :
      (c : Option ℕ)
      → find target h.conns ≡ c
      → IsDelivery w from req_id target sig h (
          after_notification w memory_store o from req_id target sig
            (write_to w 0 c (Frame.incoming sig) h))
  unfolding write
  notified none e = queue-IsDelivery
  notified (some c) e = elim (Bool-cases (w.delivers 0 c)) [
    | inl written ↦ rw written (inl (c, e, written, refl))
    | inr failed ↦ rw failed queue-IsDelivery
  ]

  deliver-IsDelivery :
      IsDelivery w from req_id target sig h (deliver w memory_store o from req_id target sig h)
  unfolding deliver send_notification
  deliver-IsDelivery = notified (find target h.conns) refl

module _ (w : Wire) (o : Outside) (from : Text) (req : RpcRequest) (h : Hub Memory) where
  -- A relayed signal with readable parameters is written once on the target's connection, with the
  -- store as it was, or else added once to the target's queue, or else refused with an error to the
  -- sender; it is never both written and queued.
  pub handle_signal_relay-IsDelivery :
      (p : SignalRelayRequest)
      → w.relay_params req.params ≡ some p
      → IsDelivery w from req.id p.target_id
          (record { from = p.from; type = p.type; body = p.body })
          h
          (handle_signal_relay w memory_store o from req h)
  unfolding handle_signal_relay
  handle_signal_relay-IsDelivery p e = rw e (deliver-IsDelivery w o from req.id p.target_id _ h)

  -- An offer to connect with readable parameters becomes a signal from the peer of the connection
  -- that it came on, which is written once on the target's connection, with the store as it was,
  -- or else added once to the target's queue, or else refused with an error to the sender.
  pub handle_connect_to_peer-IsDelivery :
      (p : ConnectToPeerRequest)
      → w.connect_params req.params ≡ some p
      → IsDelivery w from req.id p.target_id
          (record { from = from; type = codes "offer"; body = p.offer })
          h
          (handle_connect_to_peer w memory_store o from req h)
  unfolding handle_connect_to_peer
  handle_connect_to_peer-IsDelivery p e = rw e (deliver-IsDelivery w o from req.id p.target_id _ h)
