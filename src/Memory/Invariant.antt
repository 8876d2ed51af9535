-- ===== src/Memory/Invariant.antt =====
-- The invariant of the memory store, which every run of calls keeps.
pub mod Steps
use muninn.Prelude.{
  ◌≡◌, refl, Bool, true, false, not, Option, none, some, List, [], ◌∷◌, ◌++◌, ◌≢◌, arith, All,
  All-append, keep, Bool-cases, inl, inr, if◌then◌else◌, sym, ap, subst, ◌∙◌, Option-cases,
}
use muninn.Prelude.Int.{ℤ, pos, ◌<ℤ◌, ltb_ℤ}
use muninn.Text.{Text, trim_space, text_eq}
use muninn.Model.{Peer, RegisterRequest, RefreshRequest, key, login_key}
use muninn.Outside.{Outside, IsFair, unix_now}
use muninn.Assoc.{Assoc, find, put, remove}
use muninn.Memory.{Memory, ChunkRecordEntry, new_memory}
use muninn.Memory.Lookup.{peer_by_key_sound}
use muninn.Memory.Directory.{
  IsDirectory, IsListed, put-IsDirectory, remove-IsDirectory, add_login_self, add_login_keeps,
  drop_login_keeps,
}
use muninn.Memory.Entries.{
  IsEntry, new_entry-IsEntry, update_first-IsEntry, mark_read-IsEntry, keep-All,
}
use muninn.Memory.Peers.{
  upsert, upsert_at, refresh, refresh_at, delete, heartbeat, store_peer, requested_peer, new_peer,
  renewed_peer, add_login, drop_login,
}
use muninn.Memory.Peers.Outcome.{
  upsert_outcome, refresh_outcome, delete_outcome, heartbeat_outcome, beating, deleted,
}
use muninn.Memory.Chunks.{
  set_chunk_hash, report_chunk, confirm_chunk, read_chunk, delete_expired_chunks, scored,
  is_chunk_expired,
}
use muninn.Memory.Chunks.Outcome.{set_chunk_hash_outcome, new_entry}
use muninn.Memory.Chunks.Reports.{
  report_chunk_outcome, confirm_chunk_outcome, read_chunk_outcome, after_report, after_confirm,
}
use muninn.Memory.Signals.{set_signal, poll_signals}
use muninn.Memory.Signals.Outcome.{
  set_signal_outcome, poll_signals_outcome, delete_expired_chunks_outcome,
}
use muninn.Memory.Queries
use muninn.Memory.Calls.{Call, step, serve, Run, IsFairRun, serve_induction}

-- The peers are a directory, and the entries are well formed.
pub record IsWell (s : Memory) : Type 0 where
  pub directory : IsDirectory s.peers s.logins
  pub entries : All IsEntry s.chunks

-- Where a peer's id and key stay, its entry can change.
pub rewrite-IsDirectory :
    {peers : Assoc Peer} {logins : Assoc (List Text)} (id : Text) (p q : Peer)
    → IsDirectory peers logins
    → find id peers ≡ some p
    → q.id ≡ p.id
    → key q ≡ key p
    → pos 0 <ℤ q.ttl_seconds
    → IsDirectory (put id q peers) logins
rewrite-IsDirectory {logins} id p q d found same_id same_key positive =
    put-IsDirectory d id q logins (same_id ∙ d.named id p found) positive
      (rw same_key (d.listed id p found)) (λ k j _ h. h)

scored_same :
    (valid : Bool) (p : Peer)
    → ((scored valid p).id ≡ p.id)
      × (key (scored valid p) ≡ key p)
      × ((scored valid p).ttl_seconds ≡ p.ttl_seconds)
unfolding scored key
scored_same valid p = (refl, refl, refl)

pub score-IsDirectory :
    {peers : Assoc Peer} {logins : Assoc (List Text)} (id : Text) (p : Peer) (valid : Bool)
    → IsDirectory peers logins
    → find id peers ≡ some p
    → IsDirectory (put id (scored valid p) peers) logins
score-IsDirectory id p valid d found =
    let (same_id, same_key, same_ttl) = scored_same valid p in
    rewrite-IsDirectory id p (scored valid p) d found same_id same_key
      (rw same_ttl (d.ttl id p found))

store_peer-IsDirectory :
    (id : Text) (p : Peer) (s : Memory)
    → IsDirectory s.peers s.logins
    → p.id ≡ id
    → pos 0 <ℤ p.ttl_seconds
    → IsDirectory (store_peer id p s).peers (store_peer id p s).logins
unfolding store_peer
store_peer-IsDirectory id p s d own positive =
    put-IsDirectory d id p (add_login (key p) id s.logins) own positive
      (add_login_self (key p) id s.logins) (λ k j _ h. add_login_keeps (key p) id s.logins k j h)

requested_ttl :
    (o : Outside) (req : RegisterRequest) (id : Text)
    → pos 0 <ℤ (requested_peer o req id).ttl_seconds
requested_ttl o req id = ground arith

upsert_at-IsDirectory :
    (o : Outside) (req : RegisterRequest) (id : Text) (r : Option Peer) (s : Memory)
    → IsDirectory s.peers s.logins
    → IsDirectory
        (upsert_at req id (requested_peer o req id) r s).peers
        (upsert_at req id (requested_peer o req id) r s).logins
unfolding upsert_at
upsert_at-IsDirectory o req id none s d =
    store_peer-IsDirectory id (new_peer req (requested_peer o req id)) s d refl
      (requested_ttl o req id)
upsert_at-IsDirectory o req id (some old) s d =
    unfold store_peer in
    let p = renewed_peer req old (requested_peer o req id) in
    let logins = drop_login (key old) id s.logins in
    put-IsDirectory d id p (add_login (key p) id logins) refl (requested_ttl o req id)
      (add_login_self (key p) id logins)
      (λ k j ne h.
        add_login_keeps (key p) id logins k j (drop_login_keeps (key old) id s.logins k j ne h))

upsert_at-chunks :
    (req : RegisterRequest) (id : Text) (p : Peer) (r : Option Peer) (s : Memory)
    → (upsert_at req id p r s).chunks ≡ s.chunks
unfolding upsert_at store_peer
upsert_at-chunks req id p none s = refl
upsert_at-chunks req id p (some old) s = refl

refresh_at-IsWell :
    (o : Outside) (req : RefreshRequest) (id : Text) (r : Option Peer) (s : Memory)
    → find id s.peers ≡ r
    → IsWell s
    → IsWell (refresh_at o req id r s)
unfolding refresh_at
refresh_at-IsWell o req id none s found h = h
refresh_at-IsWell o req id (some p) s found h = record {
  directory =
      let k = login_key req.login req.signature_key in
      let d = h.directory in
      put-IsDirectory d id (record p { last_seen = o.now }) (add_login k id s.logins)
        (d.named id p found) (d.ttl id p found)
        (unfold key in add_login_keeps k id s.logins (key p) id (d.listed id p found))
        (λ i j _ m. add_login_keeps k id s.logins i j m);
  entries = h.entries;
}
