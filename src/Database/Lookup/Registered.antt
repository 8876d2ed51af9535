-- ===== src/Database/Lookup/Registered.antt =====
-- A registration in the database, and the peer that Get returns afterwards.
use mathlib.Core.List.{Permᴰ}
use mathlib.Core.List.Permᴰ
use muninn.Prelude.{
  ℕ, ◌≡◌, refl, sym, ap, ◌∙◌, subst, Bool, true, false, Option, none, some, List, [], ◌∷◌,
  Option-cases, inl, inr, In, here, there, In-keep, In-perm, In-append_right, keep, if◌then◌else◌,
}
use muninn.Text.{Text, trim_space, is_empty}
use muninn.Text.Equality.{eq_of_text_eq}
use muninn.Model.{Peer, RegisterRequest}
use muninn.Score.{not_found}
use muninn.Action.{Reply, done, failed}
use muninn.Memory.{is_expired}
use muninn.Database.{
  Database, PeerRow, Server, IsFairServer, first_row, has_id, scan_peer, update_where,
  get_peer_by_id,
}
use muninn.Database.Peers.{renewed_row, upsert_row, upsert, get_peer}
use muninn.Database.Outcome.{first_row-In}
use muninn.Database.Outcome.Peers.{upserted, upsert_outcome}
use muninn.Database.Tables.{IsUnique, none_selected}
use muninn.Database.Invariant.{IsWellFormed}
use muninn.Database.Invariant.{upserted-IsWellFormed}
use muninn.Database.Lookup.Scanned.{
  registered_row, row_of, IsRegisteredPeer, scanned-IsRegisteredPeer,
}
use muninn.Database.Lookup.{All-In, select_unique, get_peer_by_id-row}

-- Whatever the order, a SELECT by id gives the same.
select-perm :
    (id : Text) {xs rows : List PeerRow}
    → Permᴰ xs rows
    → IsUnique rows
    → first_row (keep (has_id id) xs) ≡ first_row (keep (has_id id) rows)
select-perm id {xs} {rows} p u = elim (Option-cases (first_row (keep (has_id id) rows))) [
  | inr (row, f) ↦
      (let (listed, passes) = In-keep (has_id id) rows (first_row-In _ f) in
        subst (λ (k : Text). first_row (keep (has_id k) xs) ≡ some row)
          (eq_of_text_eq row.id id passes) (select_unique row p u listed)
        ∙ sym f)
  | inl f ↦ elim (Option-cases (first_row (keep (has_id id) xs))) [
    | inl e ↦ e ∙ sym f
    | inr (row, e) ↦
        (let (listed, passes) = In-keep (has_id id) xs (first_row-In _ e) in
          let missed =
            All-In (λ r. has_id id r ≡ false) rows (none_selected (has_id id) (Permᴰ.refl rows) f)
              (In-perm p listed) in
          absurd (both passes missed))
  ]
]
  where
    both : {b : Bool} → b ≡ true → b ≡ false → ⊥
    both h k = cc

In-update_where :
    (test : PeerRow → Bool) (f : PeerRow → PeerRow) (rows : List PeerRow) {row : PeerRow}
    → In row rows
    → test row ≡ true
    → In (f row) (update_where test f rows)
unfolding update_where
In-update_where test f [] m h = elim m [ ]
In-update_where test f (r ∷ rows) {row} (here e) h =
    let hit : test r ≡ true = subst (λ (x : PeerRow). test x ≡ true) e h in rw hit (here (ap f e))
In-update_where test f (r ∷ rows) (there m) h = there (In-update_where test f rows m h)

registered-In :
    (w : Server) (req : RegisterRequest) (db : Database) (o : Option PeerRow)
    → first_row (keep (has_id (trim_space req.id)) (w.peer_order 1 db.peers)) ≡ o
    → IsFairServer w
    → In (registered_row w.outside req o) (upserted w req db).peers
      × ((registered_row w.outside req o).id ≡ trim_space req.id)
unfolding upsert_row
registered-In w req db none e fair = rw e (In-append_right db.peers (here refl), refl)
registered-In w req db (some row) e fair =
    let (listed, passes) =
      In-keep (has_id (trim_space req.id)) (w.peer_order 1 db.peers) (first_row-In _ e) in
    rw e (
      In-update_where (has_id (trim_space req.id)) (renewed_row w.outside req) db.peers
          (In-perm (fair.peer_perm 1 db.peers) listed) passes,
      eq_of_text_eq row.id (trim_space req.id) passes,
    )

module _ (w v : Server) (req : RegisterRequest) (db : Database) (fair : IsFairServer w)
    (fair_v : IsFairServer v) (passes : (i : ℕ) → v.fails i ≡ none) (h : IsWellFormed db) where
  get_peer-row :
      (row : PeerRow)
      → is_empty (trim_space req.id) ≡ false
      → In row (upserted w req db).peers
      → row.id ≡ trim_space req.id
      → (get_peer v req.id (upserted w req db)).0 ≡ (
          if is_expired (scan_peer row) v.outside.now
          then failed not_found
          else done (scan_peer row))
  unfolding get_peer
  get_peer-row row named m own =
      let db' = upserted w req db in
      let answer = λ (p : Peer). if is_expired p v.outside.now then failed not_found else done p in
      let found =
        get_peer_by_id-row v db' fair_v passes (upserted-IsWellFormed w req db fair named h) 0 row
          m in
      subst (λ (k : Text). (get_peer_by_id v 0 k db').0 ≡ answer (scan_peer row)) own
        (ap (λ (r : Reply Peer × Database). r.0) found
          ∙ split (scan_peer row) db' (is_expired (scan_peer row) _))
    where
      split :
          (p : Peer) (s : Database) (b : Bool)
          → (λ (r : Reply Peer × Database). r.0) (if b then (failed not_found, s) else (done p, s))
            ≡ (if b then failed not_found else done p)
      split p s true = refl
      split p s false = refl

  -- On well-formed tables, behind a registration that succeeds Get answers with the peer of the
  -- trimmed id, or that there is none if the peer has expired, where no statement of it fails and
  -- every SELECT finds each row once. The time of the last sign of life is that of the registration
  -- in whole seconds, and the time to live the request's, or 300 if that is not positive. If the
  -- table had no row of the id, the keys, the flag and the mark as fake are the request's, the mark
  -- being no where the request has none, the score is 1000 and the counters are 0; otherwise the
  -- keys, the score, the counters and the mark are the row's, and so is the flag if the request has
  -- none. The login of the peer is the key of the old row if there was one,
  -- and otherwise the trimmed login and signature key of the request with a colon between them.
  pub get_peer-registered :
      (upsert w req db).0 ≡ done tt
      → (p : Peer) × IsRegisteredPeer w.outside req db p
        × ((get_peer v req.id (upsert w req db).1).0
            ≡ (if is_expired p v.outside.now then failed not_found else done p))
  get_peer-registered =
      let row = registered_row w.outside req (row_of (trim_space req.id) db) in
      upsert_outcome w db req
        (λ r.
          r.0 ≡ done tt
          → (p : Peer) × IsRegisteredPeer w.outside req db p
            × ((get_peer v req.id r.1).0
                ≡ (if is_expired p v.outside.now then failed not_found else done p)))
        (λ _ e. cc)
        λ named _.
          let same = select-perm (trim_space req.id) (fair.peer_perm 1 db.peers) h.unique in
          let (m, own) = registered-In w req db (row_of (trim_space req.id) db) same fair in
          (scan_peer row, scanned-IsRegisteredPeer w.outside req db, get_peer-row row named m own)
