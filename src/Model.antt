-- ===== src/Model.antt =====
-- The data of internal/model/peer.go and internal/model/quality.go. A Go `string` is a `Text`, an
-- `int` or `int64` a `ℤ`, a `time.Time` the nanoseconds since the epoch as a `ℤ`.
use muninn.Prelude.{Bool, Option, List, ◌++◌, ◌∷◌}
use muninn.Prelude.Int.{ℤ}
use muninn.Text.{Text, codes}

-- `PeerFlag` is a string type: a request can carry any text.
abbrev pub PeerFlag : Type 0
PeerFlag = Text

abbrev pub thin : PeerFlag
thin = codes "thin"

abbrev pub thick : PeerFlag
thick = codes "thick"

abbrev pub very_thick : PeerFlag
very_thick = codes "very_thick"

pub record QualityStats : Type 0 where
  pub valid_reports : ℤ
  pub invalid_reports : ℤ

pub record Peer : Type 0 where
  pub id : Text
  pub login : Text
  pub encryption_key : Text
  pub signature_key : Text
  pub last_seen : ℤ
  pub ttl_seconds : ℤ
  pub quality_score : ℤ
  pub quality : QualityStats
  pub peer_flag : PeerFlag
  pub fake : Bool

-- `Peer.Key`.
abbrev pub login_key : Text → Text → Text
login_key login signature = login ++ b':' ∷ signature

unfoldable pub key : Peer → Text
key p = login_key p.login p.signature_key

-- `fake` is a `*bool`: `none` is nil.
pub record RegisterRequest : Type 0 where
  pub id : Text
  pub login : Text
  pub encryption_key : Text
  pub signature_key : Text
  pub ttl_seconds : ℤ
  pub peer_flag : PeerFlag
  pub fake : Option Bool

pub record RefreshRequest : Type 0 where
  pub id : Text
  pub login : Text
  pub signature_key : Text

pub record RegisterChunkRequest : Type 0 where
  pub sender_id : Text
  pub recipient_id : Text
  pub hash : Text
  pub signature : Text
  pub peer_id : Text
  pub persist : Bool
  pub ttl : ℤ

pub record RegisterChunkBatchEntry : Type 0 where
  pub chunk_index : ℤ
  pub sender_id : Text
  pub recipient_id : Text
  pub hash : Text
  pub signature : Text
  pub peer_id : Text
  pub persist : Bool
  pub ttl : ℤ

pub record RegisterChunkBatchRequest : Type 0 where
  pub chunks : List RegisterChunkBatchEntry

pub record ChunkRecord : Type 0 where
  pub file_id : Text
  pub chunk_index : ℤ
  pub sender_id : Text
  pub recipient_id : Text
  pub hash : Text
  pub peer_id : Text
  pub persist : Bool
  pub confirmed : Bool
  pub readed : Bool
  pub created_at : ℤ
  pub updated_at : ℤ
  pub ttl : ℤ

pub record ChunkReportRequest : Type 0 where
  pub reporter_id : Text
  pub file_id : Text
  pub chunk_index : ℤ
  pub hash : Text
  pub signature : Text

pub record ChunkReportResult : Type 0 where
  pub valid : Bool
  pub expected_hash : Text
  pub reported_hash : Text
  pub delta : ℤ
  pub peer : Peer

pub record ConfirmChunkRequest : Type 0 where
  pub recipient_id : Text
  pub file_id : Text
  pub chunk_index : ℤ
  pub hash : Text
  pub signature : Text

pub record ReadChunkRequest : Type 0 where
  pub recipient_id : Text
  pub file_id : Text
  pub signature : Text

pub record ConfirmChunkBatchEntry : Type 0 where
  pub file_id : Text
  pub chunk_index : ℤ
  pub hash : Text
  pub signature : Text

pub record ConfirmChunkBatchRequest : Type 0 where
  pub recipient_id : Text
  pub chunks : List ConfirmChunkBatchEntry

pub record ConfirmChunkResult : Type 0 where
  pub valid : Bool
  pub expected_hash : Text
  pub confirmed_hash : Text
  pub delta : ℤ
  pub peer : Peer

pub record ReadChunkResult : Type 0 where
  pub valid : Bool

-- `body` is the field `Data`.
pub record Signal : Type 0 where
  pub from : Text
  pub type : Text
  pub body : Text
