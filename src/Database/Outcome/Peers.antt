-- ===== src/Database/Outcome/Peers.antt =====
-- The outcomes of the methods of `dbStore` on peers and signals: each fails for some error, the
-- tables being as they were, or does its work. The loops over rows change nothing.
use muninn.Prelude.{◌≡◌, false, some, List, keep, map}
use muninn.Prelude.Int.{ℤ}
use muninn.Text.{Text, trim_space, is_empty}
use muninn.Model.{Peer, RegisterRequest, RefreshRequest, Signal, login_key}
use muninn.Score.{Error}
use muninn.Memory.Peers.{non_empty}
use muninn.Action.{Reply, done, failed}
use muninn.Action.Rules.{
  after_check, after_reject, after_get, after_pure, after_modify, after_last_modify,
  after_last_require,
}
use muninn.Database.{
  Database, SignalRow, Server, first_row, has_id, has_key, live_rows, update_where, delete_where,
}
use muninn.Database.Outcome.{
  after_statement, after_bare_statement, get_peer_by_id_outcome, IsFound, after_peer_by_id,
}
use muninn.Database.Peers.{
  upsert_row, upsert, refresh, get_peer, get_by_key, is_none, delete, list, heartbeat, beating_row,
  refreshed_row, has_id_and_key,
}
use muninn.Database.Signals.{set_signal, poll_signals, is_for, delete_unless, scan_signal}

abbrev pub upserted : Server → RegisterRequest → Database → Database
upserted w req db =
    let id = trim_space req.id in
    record db {
      peers =
          upsert_row w.outside req id (first_row (keep (has_id id) (w.peer_order 1 db.peers)))
            db.peers;
    }

abbrev pub refreshed : Server → RefreshRequest → Database → Database
refreshed w req db =
    let key = login_key (trim_space req.login) (trim_space req.signature_key) in
    record db {
      peers =
          update_where (has_id_and_key (trim_space req.id) key) (refreshed_row w.outside) db.peers;
    }

abbrev pub beaten : Server → Text → ℤ → Database → Database
beaten w id ttl_seconds db = record db {
  peers = update_where (has_id id) (beating_row w.outside ttl_seconds) db.peers;
}

abbrev pub without_peer : Text → Database → Database
without_peer id db = record db { peers = delete_where (has_id id) db.peers }

abbrev pub polled : Server → Text → Database → Database
polled w peer_id db = record db { signals = delete_unless (w.fails 1) peer_id db.signals }

module _ {ℓ} (w : Server) (db : Database) where
  pub upsert_outcome :
      (req : RegisterRequest) (Q : Reply (Unit {0}) × Database → Type ℓ)
      → ((e : Error) → Q (failed e, db))
      → (is_empty (trim_space req.id) ≡ false → Q (done tt, upserted w req db))
      → Q (upsert w req db)
  unfolding upsert
  upsert_outcome req Q fail go =
      after_reject Q _ _ db (λ _. fail _)
        λ named. after_statement Q w 0 _ _ db fail (
          after_get Q _ db (
            after_statement Q w 1 _ _ db fail (
              after_statement Q w 2 _ _ db fail
                (after_statement Q w 3 _ _ db fail (after_last_modify Q _ db (go named))))))

  pub delete_outcome :
      (id : Text) (Q : Reply (Unit {0}) × Database → Type ℓ)
      → ((e : Error) → Q (failed e, db))
      → (is_none (first_row (keep (has_id (trim_space id)) db.peers)) ≡ false
          → Q (done tt, without_peer (trim_space id) db))
      → Q (delete w id db)
  unfolding delete
  delete_outcome id Q fail go =
      after_reject Q _ _ db (λ _. fail _)
        λ _. after_statement Q w 0 _ _ db fail (
          after_statement Q w 1 _ _ db fail (
            after_get Q _ db (
              after_reject Q _ _ db (λ _. fail _)
                λ listed.
                  after_bare_statement Q w 2 _ db fail (after_last_modify Q _ db (go listed)))))

  pub refresh_outcome :
      (req : RefreshRequest) (Q : Reply (Unit {0}) × Database → Type ℓ)
      → ((e : Error) → Q (failed e, db))
      → Q (done tt, refreshed w req db)
      → Q (refresh w req db)
  unfolding refresh
  refresh_outcome req Q fail go =
      after_reject Q _ _ db (λ _. fail _)
        λ _. after_statement Q w 0 _ _ db fail (
          after_statement Q w 1 _ _ db fail
            (after_statement Q w 2 _ _ db fail (after_last_modify Q _ db go)))

  -- A beat is written before the peer is read, which may fail.
  pub heartbeat_outcome :
      (id : Text) (ttl_seconds : ℤ) (Q : Reply Peer × Database → Type ℓ)
      → ((e : Error) → Q (failed e, db))
      → (is_none (first_row (keep (has_id (trim_space id)) db.peers)) ≡ false
          → ((e : Error) → Q (failed e, beaten w (trim_space id) ttl_seconds db))
            × ((p : Peer)
                → IsFound w 1 (has_id (trim_space id)) (beaten w (trim_space id) ttl_seconds db) p
                → Q (done p, beaten w (trim_space id) ttl_seconds db)))
      → Q (heartbeat w id ttl_seconds db)
  unfolding heartbeat
  heartbeat_outcome id ttl_seconds Q fail go =
      after_reject Q _ _ db (λ _. fail _)
        λ _. after_statement Q w 0 _ _ db fail (
          after_get Q _ db (
            after_reject Q _ _ db (λ _. fail _)
              λ listed.
                after_modify Q _ _ db
                  (get_peer_by_id_outcome w 1 (trim_space id) _ Q (go listed).0 (go listed).1)))

  pub get_peer_outcome :
      (id : Text) (Q : Reply Peer × Database → Type ℓ)
      → ((e : Error) → Q (failed e, db))
      → ((p : Peer) → IsFound w 0 (has_id (trim_space id)) db p → Q (done p, db))
      → Q (get_peer w id db)
  unfolding get_peer
  get_peer_outcome id Q fail go = get_peer_by_id_outcome w 0 (trim_space id) db Q fail go

  pub get_by_key_outcome :
      (login signature : Text) (Q : Reply (List Peer) × Database → Type ℓ)
      → ((e : Error) → Q (failed e, db))
      → ((ps : List Peer)
          → non_empty (
              live_rows w.outside.now (
                keep (has_key (trim_space login) (trim_space signature)) (w.peer_order 0 db.peers)))
            ≡ some ps
          → Q (done ps, db))
      → Q (get_by_key w login signature db)
  unfolding get_by_key
  get_by_key_outcome login signature Q fail go =
      after_reject Q _ _ db (λ _. fail _)
        λ _.
          after_get Q _ db
            (after_check Q _ _ db (λ e _. fail e) (λ _. after_last_require Q _ db (λ _. fail _) go))

  pub list_outcome :
      (Q : Reply (List Peer) × Database → Type ℓ)
      → ((e : Error) → Q (failed e, db))
      → ((ps : List Peer) → Q (done ps, db))
      → Q (list w db)
  unfolding list
  list_outcome Q fail go =
      after_statement Q w 0 _ _ db fail (after_get Q _ db (after_pure Q _ db (go _)))

  pub set_signal_outcome :
      (peer_id : Text) (sig : Signal) (Q : Reply (Unit {0}) × Database → Type ℓ)
      → ((e : Error) → Q (failed e, db))
      → ((signals : List SignalRow) → Q (done tt, record db { signals = signals }))
      → Q (set_signal w peer_id sig db)
  unfolding set_signal
  set_signal_outcome peer_id sig Q fail go =
      after_reject Q _ _ db (λ _. fail _)
        λ _.
          after_peer_by_id Q w 0 (trim_space peer_id) db _ _ (fail _)
            λ p _. after_bare_statement Q w 1 _ db fail (after_last_modify Q _ db (go _))

  pub poll_signals_outcome :
      (peer_id : Text) (Q : Reply (List Signal) × Database → Type ℓ)
      → ((e : Error) → Q (failed e, db))
      → Q (
        done (map scan_signal (keep (is_for (trim_space peer_id)) (w.signal_order 0 db.signals))),
        polled w (trim_space peer_id) db,
      )
      → Q (poll_signals w peer_id db)
  unfolding poll_signals
  poll_signals_outcome peer_id Q fail go =
      after_reject Q _ _ db (λ _. fail _)
        λ _.
          after_statement Q w 0 _ _ db fail
            (after_get Q _ db (after_modify Q _ _ db (after_pure Q _ _ go)))
