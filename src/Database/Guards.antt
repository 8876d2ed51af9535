-- ===== src/Database/Guards.antt =====
-- What a call of `dbStore` that fails leaves behind, and what the driver decides.
pub mod Signed
pub mod Reported
pub mod Counts
pub mod Failures
pub mod Confirmed
use muninn.Prelude.{
  ◌≡◌, refl, Bool, true, false, ◌⊎◌, inl, inr, if◌then◌else◌, keep, ap, List, [], ◌∷◌, not,
}
use muninn.Text.{Text, codes, trim_space}
use muninn.Score.{Error}
use muninn.Action.{Reply, done, failed, panicked}
use muninn.Memory.Calls.{Call}
use muninn.Database.{
  Database, Server, IsFairServer, has_id, update_where, delete_where, ChunkRow, PeerRow,
}
use muninn.Database.Reports.{holds_key, is_addressed}
use muninn.Database.Chunks.{known_driver, purged}
use muninn.Database.Guards.Counts.{beaten_lem}
use muninn.Database.Guards.Failures.{
  Leftover, report-IsCounted, unmarked-IsConfirmation, marked-IsConfirmation,
}
use muninn.Database.Calls.{step, outcome, outcome_of}
use muninn.Database.Outcome.Peers
use muninn.Database.Outcome.Chunks
use muninn.Database.Outcome.Reports
use muninn.Database.Outcome.Ranking
use muninn.Database.Outcome.Reports.{confirmed_database}

module _ (w : Server) (driver : Text) (db : Database) (e : Error) (fair : IsFairServer w) where
  -- The tables are as they were, or there was no error.
  abbrev Kept : {A : Type 0} → Reply A × Database → Type 0
  Kept r = outcome_of r.0 ≡ failed e → r.1 ≡ db

  abbrev Left : {A : Type 0} → Call → Reply A × Database → Type 0
  Left c r = outcome_of r.0 ≡ failed e → Leftover w driver c db r.1

  -- Where every SELECT finds each row of its table once, a call that returns an error leaves the
  -- tables as they were, but for three calls, which may have written first: a heartbeat the time
  -- of the beat and the time to live; a report one more report and one point more or less for the
  -- source; a confirmation the same for the peers whose key is the sender of a row of the chunk
  -- for the recipient, and, where it is valid and the driver is "pgx" or "sqlite", the mark on the
  -- rows of the chunk for the recipient. Each counts as valid if its hash is that of the row of
  -- the chunk that it finds, and as invalid otherwise.
  pub step-Leftover :
      (c : Call) → outcome w driver c db ≡ failed e → Leftover w driver c db (step w driver c db)
  step-Leftover (Call.upsert req) = Peers.upsert_outcome w db req Kept (λ _ _. refl) (λ _ h. cc)
  step-Leftover (Call.refresh req) = Peers.refresh_outcome w db req Kept (λ _ _. refl) (λ h. cc)
  step-Leftover (Call.get id) = Peers.get_peer_outcome w db id Kept (λ _ _. refl) (λ _ _ h. cc)
  step-Leftover (Call.get_by_key login signature) =
      Peers.get_by_key_outcome w db login signature Kept (λ _ _. refl) (λ _ _ h. cc)
  step-Leftover (Call.delete id) = Peers.delete_outcome w db id Kept (λ _ _. refl) (λ _ h. cc)
  step-Leftover Call.list = Peers.list_outcome w db Kept (λ _ _. refl) (λ _ h. cc)
  step-Leftover (Call.heartbeat id ttl) =
      Peers.heartbeat_outcome w db id ttl (Left (Call.heartbeat id ttl)) (λ _ _. inl refl)
        (λ _. (λ _ _. inr (beaten_lem w (trim_space id) ttl db), λ _ _ h. cc))
  step-Leftover (Call.set_chunk_hash file_id i req) =
      Chunks.set_chunk_hash_outcome w db file_id i req Kept (λ _ _. refl) (λ _. refl)
        (λ _ _ _ _ h. cc)
  step-Leftover (Call.get_best_peers n) =
      Ranking.get_best_peers_outcome w n db Kept (λ _ _. refl) (λ _ _. refl) (λ _ _. refl)
  step-Leftover (Call.report_chunk id req) =
      Reports.report_chunk_outcome w db id req (Left (Call.report_chunk id req)) (λ _ _. inl refl)
        λ _ row _ _ m. (λ _ _. inr (report-IsCounted w fair id req db row m), λ _ _ h. cc)
  step-Leftover (Call.confirm_chunk req) =
      Reports.confirm_chunk_outcome w db driver req (Left (Call.confirm_chunk req))
        (λ _ _. inl refl) (λ _. inl refl)
        λ _ row _ _ m. (
          λ _ _. inr (unmarked-IsConfirmation w fair req db row driver m),
          λ _ _. inr (marked-IsConfirmation w fair req db row driver m),
          λ h. cc,
          λ _ _ h. cc,
        )
  step-Leftover (Call.read_chunk req) =
      Reports.read_chunk_outcome w db driver req Kept (λ _ _. refl) (λ _. refl) (λ _ _ _ h. cc)
  step-Leftover (Call.get_chunks_by_recipient id from) =
      Chunks.get_chunks_by_recipient_outcome w db id from Kept (λ _ _. refl) (λ _. refl)
  step-Leftover (Call.get_chunks_by_file_id id) =
      Chunks.get_chunks_by_file_id_outcome w db id Kept (λ _ _. refl) (λ _. refl)
  step-Leftover (Call.get_best_thick_peers n) =
      Ranking.get_best_thick_peers_outcome w n db Kept (λ _ _. refl) (λ _ _. refl) (λ _ _. refl)
  step-Leftover (Call.set_signal id sig) =
      Peers.set_signal_outcome w db id sig Kept (λ _ _. refl) (λ _ h. cc)
  step-Leftover (Call.poll_signals id) =
      Peers.poll_signals_outcome w db id Kept (λ _ _. refl) (λ h. cc)
  step-Leftover Call.delete_expired_chunks =
      Chunks.delete_expired_chunks_outcome w db driver Kept (λ _ _. refl) (λ h. cc)

-- The calls that mark chunks or purge them.
abbrev pub marks : Call → Bool
marks (Call.confirm_chunk req) = true
marks (Call.read_chunk req) = true
marks Call.delete_expired_chunks = true
marks _ = false

delete_where-none {ℓ} : {A : Type ℓ} (xs : List A) → delete_where (λ x. false) xs ≡ xs
unfolding delete_where
delete_where-none [] = refl
delete_where-none (x ∷ xs) = ap (λ ys. x ∷ ys) (delete_where-none xs)

postgres-purged :
    (w : Server) (rows : List ChunkRow)
    → delete_where (purged (codes "postgres") w.clock) rows ≡ rows
postgres-purged w rows = delete_where-none rows

postgres-confirmed :
    (w : Server) (valid : Bool) (test : ChunkRow → Bool) (db : Database)
    → (confirmed_database w (codes "postgres") valid test db).chunks ≡ db.chunks
postgres-confirmed w true test db = refl
postgres-confirmed w false test db = refl

-- With the driver "postgres" a confirmation, a reading and the purge leave every chunk as it was,
-- whether they succeed or not.
pub postgres_keeps_chunks :
    (w : Server) (c : Call) (db : Database)
    → marks c ≡ true
    → (step w (codes "postgres") c db).chunks ≡ db.chunks
postgres_keeps_chunks w (Call.confirm_chunk req) db _ =
    Reports.confirm_chunk_outcome w db (codes "postgres") req (λ r. r.1.chunks ≡ db.chunks)
      (λ _. refl) refl
      λ _ _ _ _ _.
        let same = postgres-confirmed w _ _ _ in (λ _. refl, λ _. same, same, λ _ _. same)
postgres_keeps_chunks w (Call.read_chunk req) db _ =
    Reports.read_chunk_outcome w db (codes "postgres") req (λ r. r.1.chunks ≡ db.chunks) (λ _. refl)
      refl (λ _ _ _. refl)
postgres_keeps_chunks w Call.delete_expired_chunks db _ =
    Chunks.delete_expired_chunks_outcome w db (codes "postgres") (λ r. r.1.chunks ≡ db.chunks)
      (λ _. refl) (postgres-purged w db.chunks)
postgres_keeps_chunks w _ db h = cc
