-- ===== src/Memory/Signals/Outcome.antt =====
-- The outcomes of `SetSignal` and `PollSignals`, and of `DeleteExpiredChunks`.
use muninn.Prelude.{
  ◌≡◌, refl, Bool, true, false, not, ◌||◌, none, some, List, [], ◌∷◌, ◌++◌, keep, length,
}
use muninn.Prelude.Int.{pos}
use muninn.Text.{Text, is_empty, trim_space}
use muninn.Model.{Peer, Signal}
use muninn.Outside.{Outside, unix_now}
use muninn.Score.{not_found, invalid_chunk}
use muninn.Assoc.{find, put, remove}
use muninn.Exec.{Result, ok, err, ◌>>=◌, get, pure, modify}
use muninn.Exec.Rules.{
  after_reject, after_require, after_get, after_modify, after_pure, after_last_modify,
}
use muninn.Memory.{Memory}
use muninn.Memory.Peers.{list_at}
use muninn.Memory.Chunks.{delete_expired_chunks, is_chunk_expired}
use muninn.Memory.Signals.{set_signal, poll_signals}

abbrev pub bad_signal : Text → Signal → Bool
bad_signal peer_id sig = is_empty (trim_space peer_id) || is_empty sig.from || is_empty sig.type

abbrev pub with_signal : Text → Signal → Memory → Memory
with_signal id sig s = record s { signals = put id (list_at id s.signals ++ sig ∷ []) s.signals }

pub set_signal_outcome {ℓ} :
    (peer_id : Text) (sig : Signal) (s : Memory) (Q : Result (Unit {0}) × Memory → Type ℓ)
    → (bad_signal peer_id sig ≡ true → Q (err invalid_chunk, s))
    → (bad_signal peer_id sig ≡ false
        → find (trim_space peer_id) s.peers ≡ none
        → Q (err not_found, s))
    → ((peer : Peer)
        → bad_signal peer_id sig ≡ false
        → find (trim_space peer_id) s.peers ≡ some peer
        → Q (ok tt, with_signal (trim_space peer_id) sig s))
    → Q (set_signal peer_id sig s)
unfolding set_signal
set_signal_outcome peer_id sig s Q bad missing done = after_reject Q _ _ s bad λ good.
    after_get Q _ s (
      after_require Q _ _ s (missing good)
        λ peer found. after_last_modify Q _ s (done peer good found))

pub poll_signals_outcome {ℓ} :
    (peer_id : Text) (s : Memory) (Q : Result (List Signal) × Memory → Type ℓ)
    → (is_empty (trim_space peer_id) ≡ true → Q (err invalid_chunk, s))
    → (is_empty (trim_space peer_id) ≡ false
        → Q (
          ok (list_at (trim_space peer_id) s.signals),
          record s { signals = remove (trim_space peer_id) s.signals },
        ))
    → Q (poll_signals peer_id s)
unfolding poll_signals
poll_signals_outcome peer_id s Q bad done =
    after_reject Q _ _ s bad
      λ good. after_get Q _ s (after_modify Q _ _ s (after_pure Q _ _ (done good)))

pub delete_expired_chunks_outcome :
    (o : Outside) (s : Memory)
    → delete_expired_chunks o s ≡ (
      ok (pos (length (keep (is_chunk_expired (unix_now o)) s.chunks))),
      record s { chunks = keep (λ e. not (is_chunk_expired (unix_now o) e)) s.chunks },
    )
unfolding delete_expired_chunks ◌>>=◌ get pure modify
delete_expired_chunks_outcome o s = refl
