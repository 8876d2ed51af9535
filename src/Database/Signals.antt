-- ===== src/Database/Signals.antt =====
-- `SetSignal` and `PollSignals` of `dbStore`.
use muninn.Prelude.{Bool, ◌||◌, Option, none, some, List, [], ◌∷◌, ◌++◌, keep, map}
use muninn.Text.{Text, text_eq, is_empty, trim_space}
use muninn.Model.{Signal}
use muninn.Outside.{unix_now}
use muninn.Score.{not_found, invalid_chunk}
use muninn.Action.{Action, pure, ◌>>=◌, ◌>>◌, reject_if, get, modify, replace_error}
use muninn.Database.{
  Database, SignalRow, Server, statement, bare_statement, delete_where, get_peer_by_id,
}

unfoldable pub set_signal : Server → Text → Signal → Action Database (Unit {0})
set_signal w peer_id sig = do
  let peer_id = trim_space peer_id
  reject_if (is_empty peer_id || is_empty sig.from || is_empty sig.type) invalid_chunk
  peer ← replace_error not_found (get_peer_by_id w 0 peer_id)
  bare_statement w 1
  modify (λ db. record db {
    signals =
        db.signals
        ++ record {
          peer_id = peer_id;
          sig_from = sig.from;
          sig_type = sig.type;
          sig_data = sig.body;
          created_at = unix_now w.outside;
        }
          ∷ [];
  })

abbrev pub is_for : Text → SignalRow → Bool
is_for peer_id row = text_eq row.peer_id peer_id

abbrev pub scan_signal : SignalRow → Signal
scan_signal row = record { from = row.sig_from; type = row.sig_type; body = row.sig_data }

-- The DELETE, whose error is dropped.
abbrev pub delete_unless : Option Text → Text → List SignalRow → List SignalRow
delete_unless none peer_id rows = delete_where (is_for peer_id) rows
delete_unless (some msg) peer_id rows = rows

unfoldable pub poll_signals : Server → Text → Action Database (List Signal)
poll_signals w peer_id = do
  let peer_id = trim_space peer_id
  reject_if (is_empty peer_id) invalid_chunk
  statement w 0 "query signals: "
  db ← get
  modify (λ db. record db { signals = delete_unless (w.fails 1) peer_id db.signals })
  pure (map scan_signal (keep (is_for peer_id) (w.signal_order 0 db.signals)))
