-- ===== src/Database/Lookup/Scanned.antt =====
-- The peer that a registration in the database leaves under its id, field by field.
use mathlib.Core.List.Permᴰ
use muninn.Prelude.{
  ◌≡◌, refl, Bool, true, false, Option, none, some, Option-cases, inl, inr, In, In-keep, keep, not,
  All, ◌⊎◌, if◌then◌else◌,
}
use mathlib.Core.Option.{get_or}
use muninn.Prelude.Int.{pos, ◌*ℤ◌, eqb_ℤ, leb_ℤ}
use muninn.Text.{Text, trim_space, is_empty, text_eq}
use muninn.Text.Equality.{eq_of_text_eq}
use muninn.Model.{Peer, RegisterRequest, login_key}
use muninn.Outside.{Outside, unix_now}
use muninn.Database.{Database, PeerRow, first_row, has_id, scan_peer}
use muninn.Database.Peers.{fake_column, new_row, renewed_row}
use muninn.Database.Outcome.{first_row-In}
use muninn.Database.Tables.{none_selected}

-- The row of the id behind a registration: a new one, or the old one with a new time and time to
-- live and, where one is given, a new flag. The old one keeps its login, its keys and its score.
abbrev pub registered_row : Outside → RegisterRequest → Option PeerRow → PeerRow
registered_row o req none = new_row o req (trim_space req.id)
registered_row o req (some row) = renewed_row o req row

abbrev pub row_of : Text → Database → Option PeerRow
row_of id db = first_row (keep (has_id id) db.peers)

-- The peer of a registration under whose id there was no row.
abbrev pub IsNewPeer : RegisterRequest → Peer → Type 0
IsNewPeer req p =
    (p.login ≡ login_key (trim_space req.login) (trim_space req.signature_key))
    × (p.encryption_key ≡ trim_space req.encryption_key)
    × (p.signature_key ≡ trim_space req.signature_key)
    × (p.quality_score ≡ pos 1000)
    × (p.quality ≡ record { valid_reports = pos 0; invalid_reports = pos 0 })
    × (p.peer_flag ≡ req.peer_flag)
    × (p.fake ≡ get_or req.fake false)

-- The peer of a registration under whose id there was a row.
abbrev pub IsRenewedPeer : RegisterRequest → PeerRow → Peer → Type 0
IsRenewedPeer req old p =
    (p.login ≡ old.key)
    × (p.encryption_key ≡ old.encryption_key)
    × (p.signature_key ≡ old.signature_key)
    × (p.quality_score ≡ old.quality_score)
    × (p.quality
        ≡ record { valid_reports = old.quality_valid; invalid_reports = old.quality_invalid })
    × (p.peer_flag ≡ (if is_empty req.peer_flag then old.peer_flag else req.peer_flag))
    × (p.fake ≡ not (eqb_ℤ old.is_fake (pos 0)))

-- The peer `p` of a registration at `o` over the tables `db`.
pub record IsRegisteredPeer (o : Outside) (req : RegisterRequest) (db : Database) (p : Peer)
    : Type 0 where
  pub named : p.id ≡ trim_space req.id
  pub seen : p.last_seen ≡ unix_now o *ℤ pos 1000000000
  pub ttl : p.ttl_seconds ≡ (if leb_ℤ req.ttl_seconds (pos 0) then pos 300 else req.ttl_seconds)
  pub past :
      (All (λ row. text_eq row.id (trim_space req.id) ≡ false) db.peers × IsNewPeer req p)
      ⊎ ((old : PeerRow) × In old db.peers × (old.id ≡ trim_space req.id) × IsRenewedPeer req old p)

fake_column_lem : (b : Option Bool) → not (eqb_ℤ (fake_column b) (pos 0)) ≡ get_or b false
fake_column_lem none = refl
fake_column_lem (some true) = refl
fake_column_lem (some false) = refl

pub scanned-IsRegisteredPeer :
    (o : Outside) (req : RegisterRequest) (db : Database)
    → IsRegisteredPeer o req db (scan_peer (registered_row o req (row_of (trim_space req.id) db)))
scanned-IsRegisteredPeer o req db = elim (Option-cases (row_of (trim_space req.id) db)) [
  | inl e ↦ rw e (record {
    named = refl;
    seen = refl;
    ttl = refl;
    past = inl (
      none_selected (has_id (trim_space req.id)) (Permᴰ.refl db.peers) e,
      (refl, refl, refl, refl, refl, refl, fake_column_lem req.fake),
    );
  })
  | inr (old, e) ↦
      (let (listed, passes) = In-keep (has_id (trim_space req.id)) db.peers (first_row-In _ e) in
        let own = eq_of_text_eq old.id (trim_space req.id) passes in
        rw e (record {
          named = own;
          seen = refl;
          ttl = refl;
          past = inr (old, listed, own, (refl, refl, refl, refl, refl, refl, refl));
        }))
]
