-- ===== src/Memory/Signals/Queue.antt =====
-- The signals of a peer are a queue.
use muninn.Prelude.{
  ◌≡◌, refl, false, some, List, [], ◌∷◌, ◌++◌, arith, All, append_assoc, append-nil, if◌then◌else◌,
  sym, ap, ◌∙◌,
}
use muninn.Text.{Text, is_empty, trim_space, text_eq}
use muninn.Text.Equality.{text_eq_refl}
use muninn.Model.{Peer, Signal}
use muninn.Assoc.{find, find-put, find-remove}
use muninn.Exec.{ok}
use muninn.Memory.{Memory}
use muninn.Memory.Peers.{list_at}
use muninn.Memory.Signals.{set_signal, poll_signals}
use muninn.Memory.Signals.Outcome.{
  bad_signal, with_signal, set_signal_outcome, poll_signals_outcome,
}

-- The state behind one `SetSignal` per signal.
unfoldable pub set_signals : Text → List Signal → Memory → Memory
set_signals id [] s = s
set_signals id (sig ∷ sigs) s = set_signals id sigs (set_signal id sig s).1

queue_put :
    (id j : Text) (sig : Signal) (s : Memory)
    → list_at j (with_signal id sig s).signals
      ≡ (if text_eq id j then list_at id s.signals ++ sig ∷ [] else list_at j s.signals)
queue_put id j sig s = ground (arith, find-put id j (list_at id s.signals ++ sig ∷ []) s.signals)

module _ (id : Text) {p : Peer} where
  set_signal-state :
      (sig : Signal) (s : Memory)
      → bad_signal id sig ≡ false
      → find (trim_space id) s.peers ≡ some p
      → (set_signal id sig s).1 ≡ with_signal (trim_space id) sig s
  set_signal-state sig s good found =
      set_signal_outcome id sig s (λ r. r.1 ≡ with_signal (trim_space id) sig s)
        (λ bad. cc (good, bad)) (λ _ missing. cc (found, missing)) (λ _ _ _. refl)

  set_signals-queue :
      (sigs : List Signal) (s : Memory)
      → All (λ sig. bad_signal id sig ≡ false) sigs
      → find (trim_space id) s.peers ≡ some p
      → list_at (trim_space id) (set_signals id sigs s).signals
        ≡ list_at (trim_space id) s.signals ++ sigs
  unfolding set_signals
  set_signals-queue [] s h found = sym (append-nil _)
  set_signals-queue (sig ∷ sigs) s (good, h) found =
      ap (λ (t : Memory). list_at (trim_space id) (set_signals id sigs t).signals)
        (set_signal-state sig s good found)
      ∙ set_signals-queue sigs (with_signal (trim_space id) sig s) h found
      ∙ ap (λ l. l ++ sigs) (queue_put (trim_space id) (trim_space id) sig s ∙ rw text_eq_refl refl)
      ∙ append_assoc (list_at (trim_space id) s.signals) (sig ∷ []) sigs

poll_value :
    (id : Text) (s : Memory)
    → is_empty (trim_space id) ≡ false
    → (poll_signals id s).0 ≡ ok (list_at (trim_space id) s.signals)
poll_value id s good =
    poll_signals_outcome id s (λ r. r.0 ≡ ok (list_at (trim_space id) s.signals))
      (λ bad. cc (good, bad)) (λ _. refl)

poll_rest :
    (id : Text) (s : Memory)
    → is_empty (trim_space id) ≡ false
    → list_at (trim_space id) (poll_signals id s).1.signals ≡ []
poll_rest id s good =
    poll_signals_outcome id s (λ r. list_at (trim_space id) r.1.signals ≡ [])
      (λ bad. cc (good, bad))
      (λ _. rw (find-remove (trim_space id) (trim_space id) s.signals, text_eq_refl) refl)

-- Signals that name a sender and a type and go to a stored peer are polled in the order in which
-- they were set, behind those that waited before; the next poll finds nothing.
pub poll_signals-set_signals :
    (id : Text) (sigs : List Signal) (s : Memory) {p : Peer}
    → is_empty (trim_space id) ≡ false
    → All (λ sig. bad_signal id sig ≡ false) sigs
    → find (trim_space id) s.peers ≡ some p
    → ((poll_signals id (set_signals id sigs s)).0 ≡ ok (list_at (trim_space id) s.signals ++ sigs))
      × ((poll_signals id (poll_signals id (set_signals id sigs s)).1).0 ≡ ok [])
poll_signals-set_signals id sigs s good h found = (
  poll_value id (set_signals id sigs s) good ∙ ap ok (set_signals-queue id sigs s h found),
  poll_value id (poll_signals id (set_signals id sigs s)).1 good
      ∙ ap ok (poll_rest id (set_signals id sigs s) good),
)

-- A signal for one peer leaves the queues of the others as they were.
pub set_signal_other :
    (id j : Text) (sig : Signal) (s : Memory)
    → text_eq (trim_space id) j ≡ false
    → list_at j (set_signal id sig s).1.signals ≡ list_at j s.signals
set_signal_other id j sig s other =
    set_signal_outcome id sig s (λ r. list_at j r.1.signals ≡ list_at j s.signals) (λ _. refl)
      (λ _ _. refl) (λ _ _ _. queue_put (trim_space id) j sig s ∙ rw other refl)
