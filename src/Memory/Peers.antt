-- ===== src/Memory/Peers.antt =====
-- The methods of `MemoryStore` on peers: Upsert, Refresh, Get, GetByKey, Delete, List, Heartbeat
-- and SetPeerScore.
pub mod Outcome
pub mod Register
pub mod ByKey
pub mod Refreshed
use muninn.Prelude.{
  ℕ, ◌≡◌, refl, Bool, true, false, ◌&&◌, ◌||◌, not, Option, none, some, List, [], ◌∷◌, ◌++◌,
  if◌then◌else◌, keep,
}
use muninn.Prelude.Int.{ℤ, pos, leb_ℤ, ltb_ℤ}
use muninn.Text.{Text, text_eq, is_empty, trim_space}
use muninn.Model.{Peer, RegisterRequest, RefreshRequest, PeerFlag, key, login_key}
use muninn.Outside.{Outside}
use muninn.Score.{Error, not_found, invalid_peer, invalid_key, initial_quality_score}
use muninn.Assoc.{Assoc, find, put, remove}
use muninn.Exec.{Result, ok, err, Exec, pure, raise, ◌>>=◌, ◌>>◌, reject_if, require, get, modify}
use muninn.Memory.{Memory, positive_or, default_ttl, is_expired}

-- A missing key of a Go map of slices reads as nil.
abbrev pub or_nil {ℓ} : {A : Type ℓ} → Option (List A) → List A
or_nil none = []
or_nil (some l) = l

abbrev pub list_at {ℓ} : {A : Type ℓ} → Text → Assoc (List A) → List A
list_at k m = or_nil (find k m)

unfoldable pub remove_id : List Text → Text → List Text
remove_id [] id = []
remove_id (v ∷ ids) id = if text_eq v id then ids else v ∷ remove_id ids id

-- The peer that a registration writes, before the branch on an old record.
abbrev pub requested_peer : Outside → RegisterRequest → Text → Peer
requested_peer o req id = record {
  id = id;
  login = trim_space req.login;
  encryption_key = trim_space req.encryption_key;
  signature_key = trim_space req.signature_key;
  last_seen = o.now;
  ttl_seconds = positive_or default_ttl req.ttl_seconds;
  quality_score = pos 0;
  quality = record { valid_reports = pos 0; invalid_reports = pos 0 };
  peer_flag = [];
  fake = false;
}

abbrev pub renewed_peer : RegisterRequest → Peer → Peer → Peer
renewed_peer req existing peer = record peer {
  quality_score = existing.quality_score;
  quality = existing.quality;
  peer_flag = if is_empty req.peer_flag then existing.peer_flag else req.peer_flag;
  fake = existing.fake;
  encryption_key = existing.encryption_key;
  signature_key = existing.signature_key;
}

abbrev pub flag_or_false : Option Bool → Bool
flag_or_false none = false
flag_or_false (some b) = b

abbrev pub new_peer : RegisterRequest → Peer → Peer
new_peer req peer = record peer {
  quality_score = initial_quality_score;
  peer_flag = req.peer_flag;
  fake = flag_or_false req.fake;
}

-- `s.logins[k] = removeID(s.logins[k], id)`
abbrev pub drop_login : Text → Text → Assoc (List Text) → Assoc (List Text)
drop_login k id m = put k (remove_id (list_at k m) id) m

-- `s.logins[k] = append(s.logins[k], id)`
abbrev pub add_login : Text → Text → Assoc (List Text) → Assoc (List Text)
add_login k id m = put k (list_at k m ++ id ∷ []) m

unfoldable pub store_peer : Text → Peer → Memory → Memory
store_peer id peer s = record s {
  logins = add_login (key peer) id s.logins;
  peers = put id peer s.peers;
}

-- Both branches of `Upsert` on `s.peers[id]`.
unfoldable pub upsert_at : RegisterRequest → Text → Peer → Option Peer → Memory → Memory
upsert_at req id peer none s = store_peer id (new_peer req peer) s
upsert_at req id peer (some existing) s =
    store_peer id (renewed_peer req existing peer)
      (record s { logins = drop_login (key existing) id s.logins })

unfoldable pub upsert : Outside → RegisterRequest → Exec Memory (Unit {0})
upsert o req = do
  let id = trim_space req.id
  reject_if (is_empty id) invalid_peer
  modify (λ s. upsert_at req id (requested_peer o req id) (find id s.peers) s)

-- The key of the request is neither trimmed nor compared with the peer's.
unfoldable pub refresh_at : Outside → RefreshRequest → Text → Option Peer → Memory → Memory
refresh_at o req id none s = s
refresh_at o req id (some existing) s = record s {
  logins = add_login (login_key req.login req.signature_key) id s.logins;
  peers = put id (record existing { last_seen = o.now }) s.peers;
}

unfoldable pub refresh : Outside → RefreshRequest → Exec Memory (Unit {0})
refresh o req = do
  let id = trim_space req.id
  reject_if (is_empty id) invalid_peer
  modify (λ s. refresh_at o req id (find id s.peers) s)

-- The peer, unless it has expired.
abbrev pub live : Outside → Option Peer → Option Peer
live o none = none
live o (some p) = if is_expired p o.now then none else some p

unfoldable pub get_peer : Outside → Text → Exec Memory Peer
get_peer o id = do s ← get; require (live o (find id s.peers)) not_found

abbrev pub cons_some {ℓ} : {A : Type ℓ} → Option A → List A → List A
cons_some none xs = xs
cons_some (some x) xs = x ∷ xs

-- The loop of `GetByKey`: the live peers of a list of ids.
unfoldable pub live_peers : Outside → Assoc Peer → List Text → List Peer
live_peers o peers [] = []
live_peers o peers (id ∷ ids) = cons_some (live o (find id peers)) (live_peers o peers ids)

abbrev pub non_empty {ℓ} : {A : Type ℓ} → List A → Option (List A)
non_empty [] = none
non_empty (x ∷ xs) = some (x ∷ xs)

unfoldable pub get_by_key : Outside → Text → Text → Exec Memory (List Peer)
get_by_key o login signature = do
  let login = trim_space login
  let signature = trim_space signature
  reject_if (is_empty login || is_empty signature) invalid_key
  s ← get
  ids ← require (find (login_key login signature) s.logins) not_found
  require (non_empty (live_peers o s.peers ids)) not_found

unfoldable pub delete : Text → Exec Memory (Unit {0})
delete id = do
  s ← get
  peer ← require (find id s.peers) not_found
  modify (λ s. record s { logins = drop_login (key peer) id s.logins; peers = remove id s.peers })

abbrev pub peers_of : List (Text × Peer) → List Peer
peers_of [] = []
peers_of ((id, p) ∷ m) = p ∷ peers_of m

-- The peers that a listing shows.
abbrev pub is_active : Outside → Peer → Bool
is_active o p = not (is_expired p o.now) && not p.fake

unfoldable pub list : Outside → Exec Memory (List Peer)
list o = do s ← get; pure (keep (is_active o) (peers_of (o.order 0 s.peers)))

unfoldable pub heartbeat : Outside → Text → ℤ → Exec Memory Peer
heartbeat o id ttl_seconds = do
  s ← get
  peer ← require (find id s.peers) not_found
  let peer' = record peer {
    ttl_seconds = if ltb_ℤ (pos 0) ttl_seconds then ttl_seconds else peer.ttl_seconds;
    last_seen = o.now;
  }
  modify (λ s. record s { peers = put id peer' s.peers })
  pure peer'

unfoldable pub set_peer_score : Text → ℤ → Exec Memory (Unit {0})
set_peer_score id score = do
  s ← get
  p ← require (find id s.peers) not_found
  modify (λ s. record s { peers = put id (record p { quality_score = score }) s.peers })
