-- ===== src/Signalling/Connections.antt =====
-- What a connection that opens or closes does.
use muninn.Prelude.{
  ℕ, suc, ◌≡◌, refl, true, false, none, some, List, [], ◌∷◌, ◌++◌, arith, map, append_assoc,
  append-nil, ap, sym, ◌∙◌, if◌then◌else◌,
}
use muninn.Text.{Text, is_empty, trim_space, text_eq}
use muninn.Text.Equality.{text_eq_refl}
use muninn.Model.{Signal}
use muninn.Outside.{Outside}
use muninn.Assoc.{find, put, find-put, find-remove}
use muninn.Memory.{Memory}
use muninn.Memory.Peers.{list_at}
use muninn.Memory.Signals.Outcome.{poll_signals_outcome}
use muninn.Handler.Interface.{memory_store}
use muninn.Signalling.{Wire, Hub, Frame, connect, disconnect, write_all, write, polled}

-- The frames of some signals on a connection.
abbrev pub frames : ℕ → List Signal → List (ℕ × Frame)
frames c sigs = map (λ sig. (c, Frame.incoming sig)) sigs

write_keeps :
    {S : Type 0} (w : Wire) (i c : ℕ) (sig : Signal) (h : Hub S)
    → ((write w i c (Frame.incoming sig) h).1.conns ≡ h.conns)
      × ((write w i c (Frame.incoming sig) h).1.store ≡ h.store)
unfolding write
write_keeps w i c sig h = ground arith

write_all_conns :
    {S : Type 0} (w : Wire) (i c : ℕ) (sigs : List Signal) (h : Hub S)
    → ((write_all w i c sigs h).conns ≡ h.conns) × ((write_all w i c sigs h).store ≡ h.store)
unfolding write_all
write_all_conns w i c [] h = (refl, refl)
write_all_conns w i c (sig ∷ sigs) h =
    let rest = write_all_conns w (suc i) c sigs (write w i c (Frame.incoming sig) h).1 in
    (rest.0 ∙ (write_keeps w i c sig h).0, rest.1 ∙ (write_keeps w i c sig h).1)

write_sent :
    {S : Type 0} (w : Wire) (i c : ℕ) (frame : Frame) (h : Hub S)
    → w.delivers i c ≡ true
    → (write w i c frame h).1 ≡ record h { sent = h.sent ++ (c, frame) ∷ [] }
unfolding write
write_sent w i c frame h written = rw written refl

write_all-sent :
    {S : Type 0} (w : Wire) (i c : ℕ) (sigs : List Signal) (h : Hub S)
    → ((j : ℕ) → w.delivers j c ≡ true)
    → (write_all w i c sigs h).sent ≡ h.sent ++ frames c sigs
unfolding write_all
write_all-sent w i c [] h all = sym (append-nil h.sent)
write_all-sent w i c (sig ∷ sigs) h all =
    ap (λ t. (write_all w (suc i) c sigs t).sent) (write_sent w i c (Frame.incoming sig) h (all i))
    ∙ write_all-sent w (suc i) c sigs (record h { sent = h.sent ++ (c, Frame.incoming sig) ∷ [] })
        all
    ∙ append_assoc h.sent ((c, Frame.incoming sig) ∷ []) (frames c sigs)

module _ (w : Wire) (o : Outside) (peer_id : Text) (c : ℕ) (h : Hub Memory) where
  connect-conns : (connect w memory_store o peer_id c h).conns ≡ put peer_id c h.conns
  unfolding connect
  connect-conns = (write_all_conns w 0 c _ _).0

  -- A peer that connects is written the signals that wait for it, in the order in which they were
  -- set, if its id is not blank and the writes succeed.
  pub connect_lem :
      is_empty (trim_space peer_id) ≡ false
      → ((j : ℕ) → w.delivers j c ≡ true)
      → (connect w memory_store o peer_id c h).sent
        ≡ h.sent ++ frames c (list_at (trim_space peer_id) h.store.signals)
  unfolding connect
  connect_lem good all =
      poll_signals_outcome peer_id h.store
        (λ r.
          (write_all w 0 c (polled r.0)
            (record h { conns = put peer_id c h.conns; store = r.1 })).sent
          ≡ h.sent ++ frames c (list_at (trim_space peer_id) h.store.signals))
        (λ bad. absurd (cc (good, bad))) (λ _. write_all-sent w 0 c _ _ all)

  -- The signals of a peer that connects leave the queue even if every write fails: they are lost.
  pub connect_loses :
      is_empty (trim_space peer_id) ≡ false
      → list_at (trim_space peer_id) (connect w memory_store o peer_id c h).store.signals ≡ []
  unfolding connect
  connect_loses good =
      poll_signals_outcome peer_id h.store
        (λ r.
          list_at (trim_space peer_id)
            (write_all w 0 c (polled r.0)
              (record h { conns = put peer_id c h.conns; store = r.1 })).store.signals
          ≡ [])
        (λ bad. absurd (cc (good, bad)))
        λ _.
          ap (λ (s : Memory). list_at (trim_space peer_id) s.signals) (write_all_conns w 0 c _ _).1
          ∙ rw (find-remove (trim_space peer_id) (trim_space peer_id) h.store.signals, text_eq_refl)
              refl

find-disconnect :
    (w w' : Wire) (o o' : Outside) (peer_id j : Text) (c c' : ℕ) (h : Hub Memory)
    → find j
        (disconnect peer_id
          (connect w' memory_store o' peer_id c' (connect w memory_store o peer_id c h))).conns
      ≡ (if text_eq peer_id j then none else find j h.conns)
unfolding disconnect
find-disconnect w w' o o' peer_id j c c' h =
    rw
      (
        connect-conns w' o' peer_id c' (connect w memory_store o peer_id c h),
        connect-conns w o peer_id c h,
      )
      (ground (
        arith,
        find-remove peer_id j (put peer_id c' (put peer_id c h.conns)),
        find-put peer_id j c' (put peer_id c h.conns),
        find-put peer_id j c h.conns,
      ))

-- Where a peer connects anew before its old connection has ended, the new connection stands in the
-- map under its id; the end of the old one takes the new one out of the map, and the connections of
-- the other peers stay as they were before both.
pub disconnect-connect :
    (w w' : Wire) (o o' : Outside) (peer_id : Text) (c c' : ℕ) (h : Hub Memory)
    → let both = connect w' memory_store o' peer_id c' (connect w memory_store o peer_id c h) in
      (find peer_id both.conns ≡ some c')
      × ((j : Text)
          → find j (disconnect peer_id both).conns
            ≡ (if text_eq peer_id j then none else find j h.conns))
disconnect-connect w w' o o' peer_id c c' h = (
  rw (connect-conns w' o' peer_id c' (connect w memory_store o peer_id c h))
      (find-put peer_id peer_id c' _ ∙ rw text_eq_refl refl),
  λ j. find-disconnect w w' o o' peer_id j c c' h,
)
