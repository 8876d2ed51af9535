-- ===== src/Database/Invariant.antt =====
-- What holds of the tables behind every run of calls of `dbStore`.
use muninn.Model.{login_key, RegisterRequest}
use muninn.Prelude.{
  ◌≡◌, refl, Bool, true, false, [], ◌∷◌, All, All-append, keep, Option-cases, inl, inr,
  if◌then◌else◌,
}
use muninn.Text.{Text, trim_space, is_empty}
use muninn.Action.{Reply}
use muninn.Memory.Calls.{Call}
use muninn.Database.{
  Database, empty_database, PeerRow, ChunkRow, Server, IsFairServer, first_row, has_id,
  update_where,
}
use muninn.Database.Peers.{upsert_row, renewed_row, beating_row, refreshed_row, has_id_and_key}
use muninn.Database.Reports.{count_row}
use muninn.Database.Chunks.{known_driver}
use muninn.Database.Calls.{step, serve, Run}
use muninn.Database.Outcome.Peers
use muninn.Database.Outcome.Chunks
use muninn.Database.Outcome.Reports
use muninn.Database.Outcome.Ranking
use muninn.Database.Outcome.Chunks.{with_peers, with_chunks}
use muninn.Database.Outcome.Reports.{confirmed_database}
use muninn.Database.Outcome.Peers.{upserted}
use muninn.Database.Tables.{
  IsUnique, none_selected, insert-IsUnique, update_where-IsUnique, delete_where-IsUnique,
  update_where-All, delete_where-All,
}
use muninn.Database.Rows.{
  IsPeerRow, IsChunkRow, new_row-IsPeerRow, renewed_row-IsPeerRow, beating_row-IsPeerRow,
  refreshed_row-IsPeerRow, count_row-IsPeerRow, chunk_row-IsChunkRow, confirm_row-IsChunkRow,
  read_row-IsChunkRow,
}

-- The ids of the peers are distinct, and the rows are well formed.
pub record IsWellFormed (db : Database) : Type 0 where
  pub unique : IsUnique db.peers
  pub peer_rows : All IsPeerRow db.peers
  pub chunk_rows : All IsChunkRow db.chunks

update_peers :
    (test : PeerRow → Bool) (f : PeerRow → PeerRow) (db : Database)
    → ((r : PeerRow) → (f r).id ≡ r.id)
    → ((r : PeerRow) → IsPeerRow r → IsPeerRow (f r))
    → IsWellFormed db
    → IsWellFormed (with_peers db (update_where test f db.peers))
update_peers test f db same keeps h = record {
  unique = update_where-IsUnique test f db.peers same h.unique;
  peer_rows = update_where-All IsPeerRow test f db.peers keeps h.peer_rows;
  chunk_rows = h.chunk_rows;
}

update_chunks :
    (b : Bool) (test : ChunkRow → Bool) (f : ChunkRow → ChunkRow) (db : Database)
    → ((r : ChunkRow) → IsChunkRow r → IsChunkRow (f r))
    → IsWellFormed db
    → IsWellFormed (with_chunks db (if b then update_where test f db.chunks else db.chunks))
update_chunks true test f db keeps h = record {
  unique = h.unique;
  peer_rows = h.peer_rows;
  chunk_rows = update_where-All IsChunkRow test f db.chunks keeps h.chunk_rows;
}
update_chunks false test f db keeps h = h

pub upserted-IsWellFormed :
    (w : Server) (req : RegisterRequest) (db : Database) (fair : IsFairServer w)
    → is_empty (trim_space req.id) ≡ false
    → IsWellFormed db
    → IsWellFormed (upserted w req db)
unfolding upsert_row
upserted-IsWellFormed w req db fair named h =
    let id = trim_space req.id in
    elim (Option-cases (first_row (keep (has_id id) (w.peer_order 1 db.peers)))) [
      | inl none_found ↦ rw none_found (record {
        unique =
            insert-IsUnique _ db.peers
              (none_selected (has_id id) (fair.peer_perm 1 db.peers) none_found) h.unique;
        peer_rows =
            All-append IsPeerRow db.peers _ h.peer_rows
              (new_row-IsPeerRow w.outside req id named, tt);
        chunk_rows = h.chunk_rows;
      })
      | inr (row, found) ↦ rw found (
          update_peers (has_id id) (renewed_row w.outside req) db (λ r. refl)
            (renewed_row-IsPeerRow w.outside req) h)
    ]

-- The tables behind an outcome are well formed.
abbrev Keeps : {A : Type 0} → Reply A × Database → Type 0
Keeps r = IsWellFormed r.1

module _ (w : Server) (driver : Text) (db : Database) (fair : IsFairServer w)
    (h : IsWellFormed db) where
  counted-IsWellFormed :
      (test : PeerRow → Bool) (valid : Bool)
      → IsWellFormed (with_peers db (update_where test (count_row valid) db.peers))
  counted-IsWellFormed test valid =
      update_peers test (count_row valid) db (λ r. refl) (count_row-IsPeerRow valid) h

  confirmed-IsWellFormed :
      (valid : Bool) (test : ChunkRow → Bool) (s : Database)
      → IsWellFormed s
      → IsWellFormed (confirmed_database w driver valid test s)
  confirmed-IsWellFormed true test s hs =
      update_chunks (known_driver driver) test _ s (confirm_row-IsChunkRow w.clock) hs
  confirmed-IsWellFormed false test s hs = hs

  -- Every call keeps the tables well formed, also where it fails.
  pub step-IsWellFormed : (c : Call) → IsWellFormed (step w driver c db)
  step-IsWellFormed (Call.upsert req) =
      Peers.upsert_outcome w db req Keeps (λ _. h)
        (λ named. upserted-IsWellFormed w req db fair named h)
  step-IsWellFormed (Call.refresh req) =
      let key = login_key (trim_space req.login) (trim_space req.signature_key) in
      Peers.refresh_outcome w db req Keeps (λ _. h)
        (update_peers (has_id_and_key (trim_space req.id) key) (refreshed_row w.outside) db
          (λ r. refl) (refreshed_row-IsPeerRow w.outside) h)
  step-IsWellFormed (Call.get id) = Peers.get_peer_outcome w db id Keeps (λ _. h) (λ _ _. h)
  step-IsWellFormed (Call.get_by_key login signature) =
      Peers.get_by_key_outcome w db login signature Keeps (λ _. h) (λ _ _. h)
  step-IsWellFormed (Call.delete id) =
      Peers.delete_outcome w db id Keeps (λ _. h)
        λ _. record {
          unique = delete_where-IsUnique _ db.peers h.unique;
          peer_rows = delete_where-All IsPeerRow _ db.peers h.peer_rows;
          chunk_rows = h.chunk_rows;
        }
  step-IsWellFormed Call.list = Peers.list_outcome w db Keeps (λ _. h) (λ _. h)
  step-IsWellFormed (Call.heartbeat id ttl) =
      let beaten =
        update_peers (has_id (trim_space id)) (beating_row w.outside ttl) db (λ r. refl)
          (beating_row-IsPeerRow w.outside ttl) h in
      Peers.heartbeat_outcome w db id ttl Keeps (λ _. h) (λ _. (λ _. beaten, λ _ _. beaten))
  step-IsWellFormed (Call.set_chunk_hash file_id i req) =
      Chunks.set_chunk_hash_outcome w db file_id i req Keeps (λ _. h) h
        λ _ fit _ _. record {
          unique = h.unique;
          peer_rows = h.peer_rows;
          chunk_rows =
              All-append IsChunkRow db.chunks _ h.chunk_rows
                (chunk_row-IsChunkRow w file_id i req fit, tt);
        }
  step-IsWellFormed (Call.get_best_peers n) =
      Ranking.get_best_peers_outcome w n db Keeps (λ _. h) (λ _. h) (λ _. h)
  step-IsWellFormed (Call.report_chunk id req) =
      Reports.report_chunk_outcome w db id req Keeps (λ _. h)
        (λ _ _ _ _ _. (λ _. counted-IsWellFormed _ _, λ _ _. counted-IsWellFormed _ _))
  step-IsWellFormed (Call.confirm_chunk req) =
      Reports.confirm_chunk_outcome w db driver req Keeps (λ _. h) h
        λ _ _ _ _ _.
          let confirmed = confirmed-IsWellFormed _ _ _ (counted-IsWellFormed _ _) in
          (λ _. counted-IsWellFormed _ _, λ _. confirmed, confirmed, λ _ _. confirmed)
  step-IsWellFormed (Call.read_chunk req) =
      Reports.read_chunk_outcome w db driver req Keeps (λ _. h) h
        λ _ _ _. update_chunks (known_driver driver) _ _ db (read_row-IsChunkRow w.clock) h
  step-IsWellFormed (Call.get_chunks_by_recipient id from) =
      Chunks.get_chunks_by_recipient_outcome w db id from Keeps (λ _. h) h
  step-IsWellFormed (Call.get_chunks_by_file_id id) =
      Chunks.get_chunks_by_file_id_outcome w db id Keeps (λ _. h) h
  step-IsWellFormed (Call.get_best_thick_peers n) =
      Ranking.get_best_thick_peers_outcome w n db Keeps (λ _. h) (λ _. h) (λ _. h)
  step-IsWellFormed (Call.set_signal id sig) =
      Peers.set_signal_outcome w db id sig Keeps (λ _. h)
        (λ _. record { unique = h.unique; peer_rows = h.peer_rows; chunk_rows = h.chunk_rows })
  step-IsWellFormed (Call.poll_signals id) =
      Peers.poll_signals_outcome w db id Keeps (λ _. h)
        (record { unique = h.unique; peer_rows = h.peer_rows; chunk_rows = h.chunk_rows })
  step-IsWellFormed Call.delete_expired_chunks =
      Chunks.delete_expired_chunks_outcome w db driver Keeps (λ _. h)
        (record {
          unique = h.unique;
          peer_rows = h.peer_rows;
          chunk_rows = delete_where-All IsChunkRow _ db.chunks h.chunk_rows;
        })

abbrev pub IsFairRun : Run → Type 0
IsFairRun = All (λ (e : Server × Call). IsFairServer e.0)

kept-IsWellFormed :
    (driver : Text) (run : Run) (db : Database)
    → IsFairRun run
    → IsWellFormed db
    → IsWellFormed (serve driver run db)
unfolding serve
kept-IsWellFormed driver [] db _ h = h
kept-IsWellFormed driver ((w, c) ∷ run) db (fair, rest) h =
    kept-IsWellFormed driver run _ rest (step-IsWellFormed w driver db fair h c)

-- After any run of calls on empty tables in which every SELECT finds each row of its table once,
-- whichever statements fail and whatever the driver, no two peers have one id; a peer has an id,
-- the key of its login and its signature key, a positive time to live, and a score of 1000 plus
-- its valid reports less its invalid ones; a chunk has a file, an index, a well-formed hash, a
-- sender, a holder and a positive time to live, and its flags are 0 or 1.
pub serve-IsWellFormed :
    (driver : Text) (run : Run) → IsFairRun run → IsWellFormed (serve driver run empty_database)
serve-IsWellFormed driver run fair =
    kept-IsWellFormed driver run empty_database fair
      (record { unique = tt; peer_rows = tt; chunk_rows = tt })
