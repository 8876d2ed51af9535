-- ===== src/Memory/Signals.antt =====
-- `SetSignal` and `PollSignals` of internal/store/memory.go.
pub mod Outcome
pub mod Queue
use muninn.Prelude.{Option, none, some, List, [], ◌∷◌, ◌++◌, ◌||◌}
use muninn.Text.{Text, is_empty, trim_space}
use muninn.Model.{Signal}
use muninn.Score.{not_found, invalid_chunk}
use muninn.Assoc.{find, put, remove}
use muninn.Exec.{Result, ok, err, Exec, pure, raise, ◌>>=◌, ◌>>◌, reject_if, require, get, modify}
use muninn.Memory.{Memory}
use muninn.Memory.Peers.{list_at}

unfoldable pub set_signal : Text → Signal → Exec Memory (Unit {0})
set_signal peer_id sig = do
  let peer_id = trim_space peer_id
  reject_if (is_empty peer_id || is_empty sig.from || is_empty sig.type) invalid_chunk
  s ← get
  peer ← require (find peer_id s.peers) not_found
  modify (λ s. record s { signals = put peer_id (list_at peer_id s.signals ++ sig ∷ []) s.signals })

unfoldable pub poll_signals : Text → Exec Memory (List Signal)
poll_signals peer_id = do
  let peer_id = trim_space peer_id
  reject_if (is_empty peer_id) invalid_chunk
  s ← get
  modify (λ s. record s { signals = remove peer_id s.signals })
  pure (list_at peer_id s.signals)
