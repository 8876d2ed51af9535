-- ===== src/Database/Peers.antt =====
-- The methods of `dbStore` on peers: Upsert, Refresh, Get, GetByKey, Delete, List, Heartbeat and
-- SetPeerScore.
use muninn.Prelude.{
  ℕ, suc, Bool, true, false, ◌&&◌, ◌||◌, Option, none, some, List, [], ◌∷◌, ◌++◌, if◌then◌else◌,
  keep,
}
use muninn.Prelude.Int.{ℤ, pos, ltb_ℤ, eqb_ℤ}
use muninn.Text.{Text, codes, is_empty, trim_space, text_eq}
use muninn.Model.{Peer, RegisterRequest, RefreshRequest, login_key}
use muninn.Outside.{Outside, unix_now}
use muninn.Score.{invalid_peer, invalid_key, not_found, initial_quality_score}
use muninn.Memory.{is_expired, positive_or, default_ttl}
use muninn.Memory.Peers.{non_empty}
use muninn.Action.{
  Reply, done, failed, panicked, Action, pure, ◌>>=◌, ◌>>◌, reject_if, require, check, get, modify,
}
use muninn.Database.{
  Database, PeerRow, Server, statement, bare_statement, failure, update_where, delete_where,
  first_row, has_id, get_peer_by_id, has_key, live_rows,
}

-- `COALESCE($10, 0)` of the pointer.
abbrev pub fake_column : Option Bool → ℤ
fake_column none = pos 0
fake_column (some true) = pos 1
fake_column (some false) = pos 0

-- The row that is inserted for a new id. The keys that an old row would pass on are empty.
abbrev pub new_row : Outside → RegisterRequest → Text → PeerRow
new_row o req id = record {
  id = id;
  key = login_key (trim_space req.login) (trim_space req.signature_key);
  encryption_key = trim_space req.encryption_key;
  signature_key = trim_space req.signature_key;
  last_seen = unix_now o;
  ttl_seconds = positive_or default_ttl req.ttl_seconds;
  quality_score = initial_quality_score;
  quality_valid = pos 0;
  quality_invalid = pos 0;
  peer_flag = req.peer_flag;
  is_fake = fake_column req.fake;
  login = trim_space req.login;
}

-- What the UPDATE writes into an old row.
abbrev pub renewed_row : Outside → RegisterRequest → PeerRow → PeerRow
renewed_row o req row = record row {
  last_seen = unix_now o;
  ttl_seconds = positive_or default_ttl req.ttl_seconds;
  peer_flag = if is_empty req.peer_flag then row.peer_flag else req.peer_flag;
}

-- Both branches on the row that the SELECT has found.
unfoldable pub upsert_row :
    Outside → RegisterRequest → Text → Option PeerRow → List PeerRow → List PeerRow
upsert_row o req id none rows = rows ++ new_row o req id ∷ []
upsert_row o req id (some row) rows = update_where (has_id id) (renewed_row o req) rows

unfoldable pub upsert : Server → RegisterRequest → Action Database (Unit {0})
upsert w req = do
  let id = trim_space req.id
  reject_if (is_empty id) invalid_peer
  statement w 0 "begin tx: "
  db ← get
  statement w 1 "select peer: "
  statement w 2 "upsert peer: "
  statement w 3 "commit: "
  modify (λ db. record db {
    peers =
        upsert_row w.outside req id (first_row (keep (has_id id) (w.peer_order 1 db.peers)))
          db.peers;
  })

-- What the UPDATE of Refresh writes into a row.
abbrev pub refreshed_row : Outside → PeerRow → PeerRow
refreshed_row o row = record row { last_seen = unix_now o }

-- The condition of the UPDATE of Refresh.
abbrev pub has_id_and_key : Text → Text → PeerRow → Bool
has_id_and_key id key row = text_eq row.id id && text_eq row.key key

-- The text of the UPDATE has a comma in front of WHERE. A database that refuses it for that answers
-- with an error, which is `fails 1`.
unfoldable pub refresh : Server → RefreshRequest → Action Database (Unit {0})
refresh w req = do
  let id = trim_space req.id
  let key = login_key (trim_space req.login) (trim_space req.signature_key)
  reject_if (is_empty id) invalid_peer
  statement w 0 "begin tx: "
  statement w 1 "refresh peer: "
  statement w 2 "commit: "
  modify (λ db. record db {
    peers = update_where (has_id_and_key id key) (refreshed_row w.outside) db.peers;
  })

unfoldable pub get_peer : Server → Text → Action Database Peer
get_peer w id = get_peer_by_id w 0 (trim_space id)

unfoldable pub get_by_key : Server → Text → Text → Action Database (List Peer)
get_by_key w login signature = do
  let login = trim_space login
  let signature = trim_space signature
  reject_if (is_empty login || is_empty signature) invalid_key
  db ← get
  check
      (failure (codes "query peers by key " ++ login ++ b':' ∷ signature ++ codes ": ") (w.fails 0))
  require
      (non_empty
        (live_rows w.outside.now (keep (has_key login signature) (w.peer_order 0 db.peers))))
      not_found

unfoldable pub is_none {ℓ} : {A : Type ℓ} → Option A → Bool
is_none none = true
is_none (some a) = false

unfoldable pub delete : Server → Text → Action Database (Unit {0})
delete w id = do
  let id = trim_space id
  reject_if (is_empty id) invalid_peer
  statement w 0 "begin tx: "
  statement w 1 "delete peer: "
  db ← get
  reject_if (is_none (first_row (keep (has_id id) db.peers))) not_found
  bare_statement w 2
  modify (λ db. record db { peers = delete_where (has_id id) db.peers })

-- What `getPeerByID` returns in a loop over rows, whose errors are passed over; `f` is what the
-- loop does to the peer.
abbrev pub found : ℤ → (Peer → Peer) → Reply Peer → List Peer → List Peer
found now f (done p) ps = if is_expired p now then ps else f p ∷ ps
found now f (failed e) ps = ps
found now f panicked ps = ps

-- The loop over the rows of a SELECT: the i-th row is looked up by its id.
unfoldable pub look_up : Server → (PeerRow → Peer → Peer) → ℕ → List PeerRow → Database → List Peer
look_up w f i [] db = []
look_up w f i (row ∷ rows) db =
    found w.outside.now (f row) (get_peer_by_id w i row.id db).0 (look_up w f (suc i) rows db)

abbrev pub is_real : PeerRow → Bool
is_real row = eqb_ℤ row.is_fake (pos 0)

unfoldable pub list : Server → Action Database (List Peer)
list w = do
  statement w 0 "list peers: "
  db ← get
  pure (look_up w (λ row p. p) 1 (keep is_real (w.peer_order 0 db.peers)) db)

abbrev pub beating_row : Outside → ℤ → PeerRow → PeerRow
beating_row o ttl_seconds row = record row {
  last_seen = unix_now o;
  ttl_seconds = if ltb_ℤ (pos 0) ttl_seconds then ttl_seconds else row.ttl_seconds;
}

unfoldable pub heartbeat : Server → Text → ℤ → Action Database Peer
heartbeat w id ttl_seconds = do
  let id = trim_space id
  reject_if (is_empty id) invalid_peer
  statement w 0 "heartbeat: "
  db ← get
  reject_if (is_none (first_row (keep (has_id id) db.peers))) not_found
  modify (λ db. record db {
    peers = update_where (has_id id) (beating_row w.outside ttl_seconds) db.peers;
  })
  get_peer_by_id w 1 id

unfoldable pub set_peer_score : Server → Text → ℤ → Action Database (Unit {0})
set_peer_score w id score = do
  let id = trim_space id
  reject_if (is_empty id) invalid_peer
  statement w 0 "set peer score: "
  db ← get
  reject_if (is_none (first_row (keep (has_id id) db.peers))) not_found
  modify (λ db. record db {
    peers = update_where (has_id id) (λ row. record row { quality_score = score }) db.peers;
  })
