-- ===== src/Database.antt =====
-- internal/store/db.go and internal/store/peer_store.go: the tables behind `dbStore`, and what its
-- methods share. A table is the list of its rows after all migrations. A statement does what its
-- text says, or returns an error and does nothing; a transaction is undone where it is not
-- committed. A method is one step.
pub mod Peers
pub mod Ranking
pub mod Chunks
pub mod Reports
pub mod Signals
pub mod Calls
pub mod Outcome
pub mod Tables
pub mod Rows
pub mod Invariant
pub mod Guards
pub mod Lookup
pub mod Agreement
use muninn.Prelude.{
  ℕ, Bool, true, false, ◌&&◌, not, Option, none, some, List, [], ◌∷◌, if◌then◌else◌, keep, map,
  String,
}
use mathlib.Core.List.{Permᴰ}
use muninn.Prelude.Int.{ℤ, pos, ◌*ℤ◌, eqb_ℤ}
use muninn.Text.{Text, codes, text_eq, is_empty, trim_space}
use muninn.Text.Split.{split2}
use muninn.Model.{Peer}
use muninn.Outside.{Outside, unix_now}
use muninn.Score.{Error, invalid_peer, invalid_key, not_found, other, wrapped}
use muninn.Memory.{is_expired}
use muninn.Memory.Peers.{non_empty}
use muninn.Action.{
  Reply, done, failed, Action, pure, ◌>>=◌, ◌>>◌, reject_if, require, check, or_panic, get,
}

pub record PeerRow : Type 0 where
  pub id : Text
  pub key : Text
  pub encryption_key : Text
  pub signature_key : Text
  pub last_seen : ℤ
  pub ttl_seconds : ℤ
  pub quality_score : ℤ
  pub quality_valid : ℤ
  pub quality_invalid : ℤ
  pub peer_flag : Text
  pub is_fake : ℤ
  pub login : Text

pub record ChunkRow : Type 0 where
  pub file_id : Text
  pub chunk_index : ℤ
  pub expected_hash : Text
  pub sender_id : Text
  pub recipient_id : Text
  pub holder_peer_id : Text
  pub persist : ℤ
  pub confirmed : ℤ
  pub readed : ℤ
  pub created_at : ℤ
  pub updated_at : ℤ
  pub ttl : ℤ

pub record SignalRow : Type 0 where
  pub peer_id : Text
  pub sig_from : Text
  pub sig_type : Text
  pub sig_data : Text
  pub created_at : ℤ

pub record Database : Type 0 where
  pub peers : List PeerRow
  pub chunks : List ChunkRow
  pub signals : List SignalRow

abbrev pub empty_database : Database
empty_database = record { peers = []; chunks = []; signals = [] }

-- One call of a method, as seen from the database: whether its i-th statement fails, by the text of
-- the error; the order in which its i-th SELECT finds the rows; and the database's own clock, in
-- seconds.
pub record Server : Type 0 where
  pub outside : Outside
  pub fails : ℕ → Option Text
  pub peer_order : ℕ → List PeerRow → List PeerRow
  pub chunk_order : ℕ → List ChunkRow → List ChunkRow
  pub signal_order : ℕ → List SignalRow → List SignalRow
  pub clock : ℤ

-- A SELECT finds every row of its table once.
pub record IsFairServer (w : Server) : Type 0 where
  pub peer_perm : (i : ℕ) (rows : List PeerRow) → Permᴰ (w.peer_order i rows) rows
  pub chunk_perm : (i : ℕ) (rows : List ChunkRow) → Permᴰ (w.chunk_order i rows) rows
  pub signal_perm : (i : ℕ) (rows : List SignalRow) → Permᴰ (w.signal_order i rows) rows

-- The error of the i-th statement, in the words of the code.
abbrev pub failure : Text → Option Text → Option Error
failure context none = none
failure context (some msg) = some (wrapped context (other msg))

unfoldable pub statement : Server → ℕ → String → Action Database (Unit {0})
statement w i context = check (failure (codes context) (w.fails i))

abbrev pub bare_failure : Option Text → Option Error
bare_failure none = none
bare_failure (some msg) = some (other msg)

-- A statement whose error is returned as it is.
unfoldable pub bare_statement : Server → ℕ → Action Database (Unit {0})
bare_statement w i = check (bare_failure (w.fails i))

-- `UPDATE … WHERE`
unfoldable pub update_where {ℓ} : {A : Type ℓ} → (A → Bool) → (A → A) → List A → List A
update_where test f [] = []
update_where test f (x ∷ xs) = (if test x then f x else x) ∷ update_where test f xs

-- `DELETE … WHERE`
unfoldable pub delete_where {ℓ} : {A : Type ℓ} → (A → Bool) → List A → List A
delete_where test xs = keep (λ x. not (test x)) xs

-- `QueryRowContext`: the first row; `none` is `sql.ErrNoRows`.
abbrev pub first_row {ℓ} : {A : Type ℓ} → List A → Option A
first_row [] = none
first_row (x ∷ xs) = some x

-- Row by row what the SELECT of a peer is scanned into. The second column is `key`, and the second
-- destination `peer.Login`.
abbrev pub scan_peer : PeerRow → Peer
scan_peer row = record {
  id = row.id;
  login = row.key;
  encryption_key = row.encryption_key;
  signature_key = row.signature_key;
  last_seen = row.last_seen *ℤ pos 1000000000;
  ttl_seconds = row.ttl_seconds;
  quality_score = row.quality_score;
  quality = record { valid_reports = row.quality_valid; invalid_reports = row.quality_invalid };
  peer_flag = row.peer_flag;
  fake = not (eqb_ℤ row.is_fake (pos 0));
}

abbrev pub has_id : Text → PeerRow → Bool
has_id id row = text_eq row.id id

unfoldable pub get_peer_by_id : Server → ℕ → Text → Action Database Peer
get_peer_by_id w i id = do
  reject_if (is_empty id) invalid_peer
  db ← get
  statement w i "scan peer: "
  row ← require (first_row (keep (has_id id) (w.peer_order i db.peers))) not_found
  reject_if (is_expired (scan_peer row) w.outside.now) not_found
  pure (scan_peer row)

abbrev pub has_key : Text → Text → PeerRow → Bool
has_key login signature row = text_eq row.login login && text_eq row.signature_key signature

-- The loop over the rows: the peers that have not expired.
abbrev pub live_rows : ℤ → List PeerRow → List Peer
live_rows now rows = keep (λ p. not (is_expired p now)) (map scan_peer rows)

-- A key with no colon in it has one part only, whose second the code reads all the same.
unfoldable pub get_peer_by_key : Server → ℕ → Text → Action Database (List Peer)
get_peer_by_key w i key = do
  let key = trim_space key
  reject_if (is_empty key) invalid_key
  parts ← or_panic (split2 b':' key)
  statement w i "query peers by key: "
  db ← get
  require
      (non_empty
        (live_rows w.outside.now (keep (has_key parts.0 parts.1) (w.peer_order i db.peers))))
      not_found
