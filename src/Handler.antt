-- ===== src/Handler.antt =====
-- internal/handler/phonebook.go: what the handlers share. A handler is given the store, the values
-- of the path and the query, and the outcome of decoding the body (`none` is an error of the JSON
-- decoder). It returns a response, and the state behind it.
pub mod Interface
pub mod Peers
pub mod Chunks
pub mod Batches
pub mod Requests
pub mod Refusals
use muninn.Prelude.{◌++◌, ℕ, List, Option, none, some, Bool, true, false, not, ◌||◌, if◌then◌else◌}
use muninn.Prelude.Int.{ℤ, pos, leb_ℤ}
use muninn.Text.{Text, codes, is_empty}
use muninn.Text.Decimal.{atoi}
use muninn.Model.{Peer, ChunkRecord, ChunkReportResult, ConfirmChunkResult, ReadChunkResult, Signal}
use muninn.Score.{
  Error, not_found, invalid_peer, invalid_key, key_taken, invalid_chunk, chunk_not_found,
  invalid_signature, no_signing_key, no_pending_messages, other,
}
use muninn.Exec.{Result, ok, err, Exec}

-- The value that is written as JSON; `empty` is the body of a bare status.
pub data Body : Type 0 where
  empty : Body
  message : Text → Body
  error : Text → Body
  status_ok : Body
  peer : Peer → Body
  peers : List Peer → Body
  report : ChunkReportResult → Body
  confirmation : ConfirmChunkResult → Body
  reading : ReadChunkResult → Body
  chunks : List ChunkRecord → Body
  signals : List Signal → Body

pub record Response : Type 0 where
  pub status : ℕ
  pub body : Body

abbrev pub Handle : Type 0 → Type 0
Handle S = S → Response × S

abbrev pub write_error : ℕ → Text → Response
write_error code msg = record { status = code; body = Body.error msg }

-- `Error()` of the errors of store.go.
unfoldable pub error_text : Error → Text
error_text Error.not_found = codes "peer not found"
error_text Error.invalid_peer = codes "invalid peer data"
error_text Error.invalid_key = codes "invalid key"
error_text Error.key_taken = codes "login+signature pair already belongs to another peer"
error_text Error.invalid_chunk = codes "invalid chunk data"
error_text Error.chunk_not_found = codes "chunk hash not registered"
error_text Error.invalid_signature = codes "invalid signature"
error_text Error.no_signing_key = codes "peer has no signature key"
error_text Error.no_pending_messages = codes "no pending messages for recipient"
error_text (Error.other msg) = msg
error_text (Error.wrapped context e) = context ++ error_text e

-- The error that `errors.Is` finds behind the wrappings.
unfoldable pub root : Error → Error
root (Error.wrapped context e) = root e
root e = e

-- The branches of the `switch`, for an error with the text `msg`.
unfoldable pub error_response : Error → Text → Response
error_response Error.not_found msg = write_error 404 msg
error_response Error.invalid_peer msg = write_error 400 msg
error_response Error.invalid_key msg = write_error 400 msg
error_response Error.key_taken msg = write_error 400 msg
error_response Error.invalid_chunk msg = write_error 400 msg
error_response Error.no_signing_key msg = write_error 400 msg
error_response Error.invalid_signature msg = write_error 401 msg
error_response Error.chunk_not_found msg = write_error 404 msg
error_response _ msg = write_error 500 (codes "internal error")

unfoldable pub write_store_error : Error → Response
unfolding root error_response error_text
write_store_error e = error_response (root e) (error_text e)

abbrev pub write_json : Body → Response
write_json body = record { status = 200; body = body }

abbrev pub no_content : Response
no_content = record { status = 204; body = Body.empty }

abbrev pub answer : {A : Type 0} → Result A → (A → Response) → Response
answer (ok a) f = f a
answer (err e) f = write_store_error e

module _ {S : Type 0} where
  abbrev pub respond : Response → Handle S
  respond r s = (r, s)

  -- `v, err := h.Store.…; if err != nil { writeStoreError(w, err); return }`, and the answer to
  -- `v`.
  unfoldable pub call : {A : Type 0} → Exec S A → (A → Response) → Handle S
  call m f s = let (r, s') = m s in (answer r f, s')

  -- `if bad { writeError(w, http.StatusBadRequest, msg); return }`
  unfoldable pub refuse_if : Bool → Text → Handle S → Handle S
  refuse_if bad msg next s = if bad then (write_error 400 msg, s) else next s

  -- `if err := json.NewDecoder(r.Body).Decode(&req); err != nil { … }`
  unfoldable pub with_body : {B : Type 0} → Option B → (B → Handle S) → Handle S
  with_body none next s = (write_error 400 (codes "invalid json body"), s)
  with_body (some req) next s = next req s

  -- A value of the request that may be unusable.
  unfoldable pub with_value : {B : Type 0} → Option B → Text → (B → Handle S) → Handle S
  with_value none msg next s = (write_error 400 msg, s)
  with_value (some b) msg next s = next b s

abbrev positive : ℤ × Bool → Option ℤ
positive (n, good) = if not good || leb_ℤ n (pos 0) then none else some n

-- The query value `n` of the two rankings: 10 if it is missing.
unfoldable pub parse_n : Text → Option ℤ
parse_n n = if is_empty n then some (pos 10) else positive (atoi n)
