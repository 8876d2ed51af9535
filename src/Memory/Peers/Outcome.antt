-- ===== src/Memory/Peers/Outcome.antt =====
-- The outcomes of the methods on peers that change the state.
use muninn.Prelude.{◌≡◌, true, false, none, some, List, ◌||◌, if◌then◌else◌}
use muninn.Prelude.Int.{ℤ, pos, ltb_ℤ}
use muninn.Text.{Text, is_empty, trim_space}
use muninn.Model.{Peer, RegisterRequest, RefreshRequest, key, login_key}
use muninn.Outside.{Outside}
use muninn.Score.{not_found, invalid_peer, invalid_key}
use muninn.Assoc.{find, put, remove}
use muninn.Exec.{Result, ok, err}
use muninn.Exec.Rules.{
  after_reject, after_require, after_get, after_modify, after_pure, after_last_modify,
  after_last_require,
}
use muninn.Memory.{Memory}
use muninn.Memory.Peers.{
  upsert, upsert_at, requested_peer, refresh, refresh_at, delete, heartbeat, set_peer_score,
  get_peer, get_by_key, live, live_peers, non_empty, drop_login,
}

module _ (o : Outside) (req : RegisterRequest) (s : Memory) where
  abbrev pub upserted : Memory
  upserted =
      let id = trim_space req.id in upsert_at req id (requested_peer o req id) (find id s.peers) s

  pub upsert_outcome {ℓ} :
      (Q : Result (Unit {0}) × Memory → Type ℓ)
      → (is_empty (trim_space req.id) ≡ true → Q (err invalid_peer, s))
      → (is_empty (trim_space req.id) ≡ false → Q (ok tt, upserted))
      → Q (upsert o req s)
  unfolding upsert
  upsert_outcome Q fail done = after_reject Q _ _ s fail λ good. after_last_modify Q _ s (done good)

module _ (o : Outside) (req : RefreshRequest) (s : Memory) where
  abbrev pub refreshed : Memory
  refreshed = let id = trim_space req.id in refresh_at o req id (find id s.peers) s

  pub refresh_outcome {ℓ} :
      (Q : Result (Unit {0}) × Memory → Type ℓ)
      → (is_empty (trim_space req.id) ≡ true → Q (err invalid_peer, s))
      → (is_empty (trim_space req.id) ≡ false → Q (ok tt, refreshed))
      → Q (refresh o req s)
  unfolding refresh
  refresh_outcome Q fail done =
      after_reject Q _ _ s fail λ good. after_last_modify Q _ s (done good)

abbrev pub deleted : Text → Peer → Memory → Memory
deleted id peer s = record s {
  logins = drop_login (key peer) id s.logins;
  peers = remove id s.peers;
}

pub delete_outcome {ℓ} :
    (id : Text) (s : Memory) (Q : Result (Unit {0}) × Memory → Type ℓ)
    → (find id s.peers ≡ none → Q (err not_found, s))
    → ((peer : Peer) → find id s.peers ≡ some peer → Q (ok tt, deleted id peer s))
    → Q (delete id s)
unfolding delete
delete_outcome id s Q fail done =
    after_get Q _ s
      (after_require Q _ _ s fail λ peer found. after_last_modify Q _ s (done peer found))

abbrev pub beating : Outside → ℤ → Peer → Peer
beating o ttl_seconds peer = record peer {
  ttl_seconds = if ltb_ℤ (pos 0) ttl_seconds then ttl_seconds else peer.ttl_seconds;
  last_seen = o.now;
}

pub heartbeat_outcome {ℓ} :
    (o : Outside) (id : Text) (ttl_seconds : ℤ) (s : Memory) (Q : Result Peer × Memory → Type ℓ)
    → (find id s.peers ≡ none → Q (err not_found, s))
    → ((peer : Peer)
        → find id s.peers ≡ some peer
        → Q (
          ok (beating o ttl_seconds peer),
          record s { peers = put id (beating o ttl_seconds peer) s.peers },
        ))
    → Q (heartbeat o id ttl_seconds s)
unfolding heartbeat
heartbeat_outcome o id ttl_seconds s Q fail done = after_get Q _ s (
    after_require Q _ _ s fail
      λ peer found. after_modify Q _ _ s (after_pure Q _ _ (done peer found)))

pub set_peer_score_outcome {ℓ} :
    (id : Text) (score : ℤ) (s : Memory) (Q : Result (Unit {0}) × Memory → Type ℓ)
    → (find id s.peers ≡ none → Q (err not_found, s))
    → ((peer : Peer)
        → find id s.peers ≡ some peer
        → Q (ok tt, record s { peers = put id (record peer { quality_score = score }) s.peers }))
    → Q (set_peer_score id score s)
unfolding set_peer_score
set_peer_score_outcome id score s Q fail done =
    after_get Q _ s
      (after_require Q _ _ s fail λ peer found. after_last_modify Q _ s (done peer found))

pub get_peer_outcome {ℓ} :
    (o : Outside) (id : Text) (s : Memory) (Q : Result Peer × Memory → Type ℓ)
    → (live o (find id s.peers) ≡ none → Q (err not_found, s))
    → ((peer : Peer) → live o (find id s.peers) ≡ some peer → Q (ok peer, s))
    → Q (get_peer o id s)
unfolding get_peer
get_peer_outcome o id s Q fail done = after_get Q _ s (after_last_require Q _ s fail done)

pub get_by_key_outcome {ℓ} :
    (o : Outside) (login signature : Text) (s : Memory) (Q : Result (List Peer) × Memory → Type ℓ)
    → (((is_empty (trim_space login) || is_empty (trim_space signature)) ≡ true)
        → Q (err invalid_key, s))
    → (find (login_key (trim_space login) (trim_space signature)) s.logins ≡ none
        → Q (err not_found, s))
    → ((ids : List Text)
        → find (login_key (trim_space login) (trim_space signature)) s.logins ≡ some ids
        → non_empty (live_peers o s.peers ids) ≡ none
        → Q (err not_found, s))
    → ((ids : List Text) (peers : List Peer)
        → ((is_empty (trim_space login) || is_empty (trim_space signature)) ≡ false)
        → find (login_key (trim_space login) (trim_space signature)) s.logins ≡ some ids
        → non_empty (live_peers o s.peers ids) ≡ some peers
        → Q (ok peers, s))
    → Q (get_by_key o login signature s)
unfolding get_by_key
get_by_key_outcome o login signature s Q bad unknown gone done = after_reject Q _ _ s bad λ good.
    after_get Q _ s (
      after_require Q _ _ s unknown λ ids found.
        after_last_require Q _ s (gone ids found)
          (λ peers some_live. done ids peers good found some_live))
