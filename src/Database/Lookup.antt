-- ===== src/Database/Lookup.antt =====
-- Rows that are looked up by their id: the primary key makes the answer that of the table,
-- whatever the order of the rows.
pub mod Best
pub mod Scanned
pub mod Registered
use mathlib.Core.List.{Permᴰ}
use mathlib.Core.List.Permᴰ
use muninn.Prelude.{
  ℕ, suc, ◌≡◌, refl, sym, ap, ◌∙◌, subst, Bool, true, false, not, Option, none, some, List, [], ◌∷◌,
  All, Bool-cases, Option-cases, inl, inr, In, here, there, In-keep, keep-In, In-perm, keep, map,
  if◌then◌else◌, arith,
}
use muninn.Text.{Text, text_eq, is_empty}
use muninn.Text.Equality.{text_eq_iff, text_eq_refl, eq_of_text_eq}
use muninn.Model.{Peer}
use muninn.Score.{not_found}
use muninn.Action.{done, failed, ◌>>=◌, continue, pure, reject_if, require, check, get}
use muninn.Memory.{is_expired}
use muninn.Database.{
  Database, PeerRow, Server, IsFairServer, statement, first_row, has_id, scan_peer, get_peer_by_id,
  live_rows,
}
use muninn.Database.Peers.{look_up, found}
use muninn.Database.Outcome.{first_row-In}
use muninn.Database.Tables.{IsUnique, none_selected}
use muninn.Database.Rows.{IsPeerRow}
use muninn.Database.Invariant.{IsWellFormed}

pub All-In {ℓ κ} : {A : Type ℓ} (P : A → Type κ) {x : A} (xs : List A) → All P xs → In x xs → P x
All-In P [] h m = elim m [ ]
All-In P (y ∷ xs) (hy, h) (here e) = subst P (sym e) hy
All-In P (y ∷ xs) (hy, h) (there m) = All-In P xs h m

has_id_sym : (r s : PeerRow) → has_id r.id s ≡ true → has_id s.id r ≡ true
has_id_sym r s h = ground (arith, text_eq_iff r.id s.id, text_eq_iff s.id r.id)

-- Two rows of one id are one row.
unique_eq :
    (rows : List PeerRow) {r s : PeerRow}
    → IsUnique rows
    → In r rows
    → In s rows
    → has_id r.id s ≡ true
    → r ≡ s
unique_eq [] u m n h = elim m [ ]
unique_eq (q ∷ rows) u (here e) (here f) h = e ∙ sym f
unique_eq (q ∷ rows) {r} {s} (apart, u) (here e) (there n) h =
    let other = All-In (λ x. has_id q.id x ≡ false) rows apart n in
    let same : has_id q.id s ≡ true = subst (λ (x : PeerRow). has_id x.id s ≡ true) e h in cc
unique_eq (q ∷ rows) {r} {s} (apart, u) (there m) (here f) h =
    let other = All-In (λ x. has_id q.id x ≡ false) rows apart m in
    let same : has_id q.id r ≡ true =
      subst (λ (x : PeerRow). has_id x.id r ≡ true) f (has_id_sym r s h) in
    cc
unique_eq (q ∷ rows) (apart, u) (there m) (there n) h = unique_eq rows u m n h

-- The SELECT of the id of a row finds the row.
pub select_unique :
    {xs rows : List PeerRow} (row : PeerRow)
    → Permᴰ xs rows
    → IsUnique rows
    → In row rows
    → first_row (keep (has_id row.id) xs) ≡ some row
select_unique {xs} {rows} row p u m = elim (Option-cases (first_row (keep (has_id row.id) xs))) [
  | inl e ↦
      absurd
        (missed (All-In (λ r. has_id row.id r ≡ false) rows (none_selected (has_id row.id) p e) m))
  | inr (r, e) ↦
      (let (listed, passes) = In-keep (has_id row.id) xs (first_row-In _ e) in
        e ∙ ap some (sym (unique_eq rows u m (In-perm p listed) passes)))
]
  where
    missed : has_id row.id row ≡ false → ⊥
    missed h = ground (arith, text_eq_refl row.id)

module _ (w : Server) (db : Database) (fair : IsFairServer w) (passes : (i : ℕ) → w.fails i ≡ none)
    (h : IsWellFormed db) where
  -- Without a failure, Get by the id of a row returns it as it is scanned, unless it has expired.
  pub get_peer_by_id-row :
      (i : ℕ) (row : PeerRow)
      → In row db.peers
      → get_peer_by_id w i row.id db ≡ (
          if is_expired (scan_peer row) w.outside.now
          then (failed not_found, db)
          else (done (scan_peer row), db))
  unfolding get_peer_by_id statement ◌>>=◌ continue pure reject_if require check get
  get_peer_by_id-row i row m =
      let named = (All-In IsPeerRow db.peers h.peer_rows m).named in
      let selected = select_unique row (fair.peer_perm i db.peers) h.unique m in
      elim (Bool-cases (is_expired (scan_peer row) w.outside.now)) [
        | inl e ↦ rw (named, passes i, selected, e) refl
        | inr e ↦ rw (named, passes i, selected, e) refl
      ]

  -- The loop over the ids of rows of the table: the rows that have not expired, in their order.
  pub look_up-live :
      (f : PeerRow → Peer → Peer) (i : ℕ) (rows : List PeerRow)
      → ((row : PeerRow) → f row (scan_peer row) ≡ scan_peer row)
      → ((row : PeerRow) → In row rows → In row db.peers)
      → look_up w f i rows db ≡ live_rows w.outside.now rows
  unfolding look_up
  look_up-live f i [] same within = refl
  look_up-live f i (row ∷ rows) same within =
      let rest = look_up-live f (suc i) rows same (λ r m. within r (there m)) in
      elim (Bool-cases (is_expired (scan_peer row) w.outside.now)) [
        | inl e ↦ rw (get_peer_by_id-row i row (within row (here refl)), e) rest
        | inr e ↦
            rw (get_peer_by_id-row i row (within row (here refl)), e, same row)
              (rw e (ap (λ ps. scan_peer row ∷ ps) rest))
      ]
