-- ===== src/Memory/Guards/Signed.antt =====
-- What an accepted call on chunks has shown: a stored peer signed the call's message.
use muninn.Prelude.{
  ℕ, ◌≡◌, ◌≢◌, refl, true, false, Option, none, some, [], arith, Bool-cases, inl, inr,
}
use muninn.Text.{Text, text_eq, trim_space}
use muninn.Text.Equality.{text_eq_iff}
use muninn.Model.{Peer, key}
use muninn.Outside.{Outside, IsFair}
use muninn.Hash.{normalize_hash}
use muninn.Sign.{
  SignError, expected_payload, reported_payload, confirmed_payload, read_payload, verify,
}
use muninn.Sign.Verify.{IsSignature, verify_sound}
use muninn.Assoc.{find}
use muninn.Exec.{Result}
use muninn.Memory.{Memory, is_expired, peer_by_key, verify_peer_signature, store_error}
use muninn.Memory.Lookup.{peer_by_key_sound}
use muninn.Memory.Invariant.{IsWell}
use muninn.Memory.Chunks.Outcome.{set_chunk_hash_outcome}
use muninn.Memory.Chunks.Reports.{report_chunk_outcome, confirm_chunk_outcome, read_chunk_outcome}
use muninn.Memory.Calls.{Call}
use muninn.Memory.Guards.{error_of, reply_error}

store_error-none : (r : Option SignError) → store_error r ≡ none → r ≡ none
store_error-none none h = refl
store_error-none (some e) h = cc

-- A signature of the message under the peer's key, which is not empty.
abbrev pub IsSigned : Outside → Peer → Text → Text → Type 0
IsSigned o p signature message =
    (p.signature_key ≢ []) × IsSignature o p.signature_key signature message

pub verify_peer_signature_sound :
    (o : Outside) (p : Peer) (signature message : Text)
    → verify_peer_signature o p signature message ≡ none
    → IsSigned o p signature message
unfolding verify_peer_signature
verify_peer_signature_sound o p signature message h =
    elim (Bool-cases (text_eq p.signature_key [])) [
      | inl e ↦ absurd (refused e)
      | inr e ↦ (
        ground (arith, text_eq_iff p.signature_key []),
        verify_sound o p.signature_key signature message (store_error-none _ (accepted e)),
      )
    ]
  where
    refused : text_eq p.signature_key [] ≡ true → ⊥
    refused e = ground arith

    accepted :
        text_eq p.signature_key [] ≡ false
        → store_error (verify o p.signature_key signature message) ≡ none
    accepted e = ground arith

-- A live peer of the store that has a key.
abbrev pub IsLivePeer : Outside → Memory → Text → Peer → Type 0
IsLivePeer o s k p = (find p.id s.peers ≡ some p) × (key p ≡ k) × (is_expired p o.now ≡ false)

-- The sender of a chunk has signed its file, index and hash; the reporter of a chunk these and the
-- source; the recipient the confirmed file, index and hash, or the read file.
abbrev pub IsAuthorised : Outside → Call → Memory → Type 0
IsAuthorised o (Call.set_chunk_hash f i req) s =
    (p : Peer) × IsLivePeer o s (trim_space req.sender_id) p
    × IsSigned o p req.signature
        (expected_payload (trim_space f) i (normalize_hash o.lower_wide req.hash))
IsAuthorised o (Call.report_chunk id req) s =
    (p : Peer) × (find (trim_space req.reporter_id) s.peers ≡ some p)
    × IsSigned o p req.signature (
        reported_payload (trim_space req.file_id) req.chunk_index
          (normalize_hash o.lower_wide req.hash) (trim_space id))
IsAuthorised o (Call.confirm_chunk req) s =
    (p : Peer) × IsLivePeer o s (trim_space req.recipient_id) p
    × IsSigned o p req.signature (
        confirmed_payload (trim_space req.file_id) req.chunk_index
          (normalize_hash o.lower_wide req.hash))
IsAuthorised o (Call.read_chunk req) s =
    (p : Peer) × IsLivePeer o s (trim_space req.recipient_id) p
    × IsSigned o p req.signature (read_payload (trim_space req.file_id))
IsAuthorised o _ s = Unit

abbrev Accepted : {A : Type 0} → Type 0 → Result A × Memory → Type 0
Accepted P r = error_of r.0 ≡ none → P

module _ (o : Outside) (s : Memory) (fair : IsFair o) (h : IsWell s) where
  found_live : (i : ℕ) (k : Text) (p : Peer) → peer_by_key o i k s ≡ some p → IsLivePeer o s k p
  found_live i k p e = peer_by_key_sound o i k s fair h.directory.distinct h.directory.named e

  -- A call that registers, reports, confirms or reads a chunk returns no error only if a peer of
  -- the store has signed the message of that call: the live peer of the sender's or recipient's
  -- key, or the reporter. The signature is Base64 of 64 bytes that Ed25519 accepts under the
  -- peer's key.
  pub accepted_is_signed : (c : Call) → reply_error o c s ≡ none → IsAuthorised o c s
  accepted_is_signed (Call.set_chunk_hash f i req) =
      set_chunk_hash_outcome o f i req s (Accepted (IsAuthorised o (Call.set_chunk_hash f i req) s))
        (λ _ e. cc)
        λ p _ found signed _. (
          p,
          found_live 0 (trim_space req.sender_id) p found,
          verify_peer_signature_sound o p _ _ signed,
        )
  accepted_is_signed (Call.report_chunk id req) =
      report_chunk_outcome o id req s (Accepted (IsAuthorised o (Call.report_chunk id req) s))
        (λ _ e. cc) λ p _ found signed _ _ _. (p, found, verify_peer_signature_sound o p _ _ signed)
  accepted_is_signed (Call.confirm_chunk req) =
      confirm_chunk_outcome o req s (Accepted (IsAuthorised o (Call.confirm_chunk req) s))
        (λ _ e. cc)
        λ p _ _ found signed _ _ _. (
          p,
          found_live 0 (trim_space req.recipient_id) p found,
          verify_peer_signature_sound o p _ _ signed,
        )
  accepted_is_signed (Call.read_chunk req) =
      read_chunk_outcome o req s (Accepted (IsAuthorised o (Call.read_chunk req) s)) (λ _ e. cc)
        λ p found signed. (
          λ _ _ e. cc,
          λ _ _. (
            p,
            found_live 0 (trim_space req.recipient_id) p found,
            verify_peer_signature_sound o p _ _ signed,
          ),
        )
  accepted_is_signed _ = λ _. tt
