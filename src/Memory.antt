-- ===== src/Memory.antt =====
-- internal/store/memory.go: the state of `MemoryStore` and the helpers that several methods share.
-- A method holds the store's lock from its first access to the state to its return, so that one
-- method is one step. `Refresh` alone takes no lock: it is one step here, which is what a caller
-- that is alone with the store sees of it.
pub mod Peers
pub mod Ranking
pub mod Chunks
pub mod Signals
pub mod Lookup
pub mod Balance
pub mod Expiry
pub mod Guards
pub mod Queries
pub mod Invariant
pub mod Calls
pub mod Entries
pub mod Directory
use muninn.Prelude.{
  ℕ, ◌≡◌, Bool, true, false, ◌&&◌, not, Option, none, some, List, [], ◌∷◌, if◌then◌else◌,
}
use muninn.Prelude.Int.{ℤ, pos, negsuc, leb_ℤ, ltb_ℤ, mul64, ◌-ℤ◌, int_min, int_max}
use muninn.Text.{Text, text_eq}
use muninn.Model.{Peer, Signal, key}
use muninn.Outside.{Outside}
use muninn.Sign.{SignError, verify}
use muninn.Score.{Error, not_found, no_signing_key, invalid_signature}
use muninn.Assoc.{Assoc, find}

pub record ChunkRecordEntry : Type 0 where
  pub chunk : Text
  pub hash : Text
  pub sender_id : Text
  pub recipient_id : Text
  pub peer_id : Text
  pub persist : Bool
  pub confirmed : Bool
  pub readed : Bool
  pub created_at : ℤ
  pub updated_at : ℤ
  pub ttl : ℤ

pub record Memory : Type 0 where
  pub peers : Assoc Peer
  pub logins : Assoc (List Text)
  pub chunks : List ChunkRecordEntry
  pub signals : Assoc (List Signal)

abbrev pub new_memory : Memory
new_memory = record { peers = []; logins = []; chunks = []; signals = [] }

abbrev pub default_ttl : ℤ
default_ttl = pos 300

abbrev pub default_chunk_ttl : ℤ
default_chunk_ttl = pos 86400

-- `ttl` where it is positive, else the default.
abbrev pub positive_or : ℤ → ℤ → ℤ
positive_or default ttl = if leb_ℤ ttl (pos 0) then default else ttl

-- `now.Sub(past)`: a `Duration` in nanoseconds, kept within the range of `int64`.
unfoldable pub duration_between : ℤ → ℤ → ℤ
duration_between past now =
    let d = now -ℤ past in
    if ltb_ℤ d int_min then int_min else if ltb_ℤ int_max d then int_max else d

-- The product with `time.Second` is one of `int64`.
unfoldable pub is_expired : Peer → ℤ → Bool
is_expired peer now =
    let ttl = positive_or default_ttl peer.ttl_seconds in
    ltb_ℤ (mul64 ttl (pos 1000000000)) (duration_between peer.last_seen now)

-- The first element that passes a test.
unfoldable pub find_first {ℓ} : {A : Type ℓ} → (A → Bool) → List A → Option A
find_first test [] = none
find_first test (x ∷ xs) = if test x then some x else find_first test xs

abbrev pub second : Option (Text × Peer) → Option Peer
second none = none
second (some (id, p)) = some p

abbrev pub holds_key : Outside → Text → Text × Peer → Bool
holds_key o k (id, p) = text_eq (key p) k && not (is_expired p o.now)

-- `i` counts the calls of `peerByKey` in one method.
unfoldable pub peer_by_key : Outside → ℕ → Text → Memory → Option Peer
peer_by_key o i k s = second (find_first (holds_key o k) (o.order i s.peers))

abbrev pub store_error : Option SignError → Option Error
store_error none = none
store_error (some e) = some invalid_signature

-- `verifyPeerSignature` of peer_store.go; both errors of `sign.Verify` become one.
unfoldable pub verify_peer_signature : Outside → Peer → Text → Text → Option Error
verify_peer_signature o peer signature_b64 message =
    if text_eq peer.signature_key []
    then some no_signing_key
    else store_error (verify o peer.signature_key signature_b64 message)
