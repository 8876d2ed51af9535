-- ===== src/Memory/Balance.antt =====
-- The score of a peer and its counters of reports move together.
pub mod Runs
use muninn.Prelude.{
  ℕ, ◌≡◌, ◌+◌, ◌-◌, ◌%◌, ◌^◌, ◌≢◌, refl, Bool, true, false, Option, none, some, List, [], arith,
  All, inl, inr, if◌then◌else◌, sym, ap, ◌∙◌, subst, Bool-cases,
}
use muninn.Prelude.Int.{
  ℤ, pos, negsuc, ◌+ℤ◌, ◌-ℤ◌, wrap, add64, to_word, to_word-+ℤ, to_word--ℤ, to_word-lt,
  to_word-wrap, wrap_congr,
}
use muninn.Text.{Text, trim_space, text_eq}
use muninn.Text.Equality.{text_eq_iff}
use muninn.Model.{Peer, RegisterRequest, RefreshRequest, ChunkReportRequest, ConfirmChunkRequest}
use muninn.Outside.{Outside, IsFair}
use muninn.Assoc.{Assoc, find, put, remove}
use muninn.Memory.{Memory, new_memory}
use muninn.Memory.Lookup.{peer_by_key_sound}
use muninn.Memory.Directory.{find-put_cases, find-remove_cases}
use muninn.Memory.Peers.{
  upsert, upsert_at, refresh, refresh_at, delete, heartbeat, store_peer, requested_peer, new_peer,
  renewed_peer,
}
use muninn.Memory.Peers.Outcome.{
  upsert_outcome, refresh_outcome, delete_outcome, heartbeat_outcome, beating,
}
use muninn.Memory.Chunks.{scored, report_chunk, confirm_chunk, delete_expired_chunks}
use muninn.Memory.Signals.Outcome.{delete_expired_chunks_outcome}
use muninn.Memory.Chunks.Reports.{report_chunk_outcome, confirm_chunk_outcome}
use muninn.Memory.Invariant.{IsWell}

-- The score is 1000, plus the valid reports, less the invalid ones, in the arithmetic of 64 bits.
abbrev pub IsBalanced : Peer → Type 0
IsBalanced p =
    p.quality_score ≡ wrap (pos 1000 +ℤ p.quality.valid_reports -ℤ p.quality.invalid_reports)

to_word-one : to_word (pos 1) ≡ 1
unfolding to_word
to_word-one = refl

to_word-minus_one : to_word (negsuc 0) ≡ 2 ^ 64 - 1
unfolding to_word
to_word-minus_one = refl

to_word-start : to_word (pos 1000) ≡ 1000
unfolding to_word
to_word-start = refl

ruleset word_laws = (
  arith, to_word-+ℤ, to_word--ℤ, to_word-wrap, to_word-lt, to_word-one, to_word-minus_one,
  to_word-start,
)

balance_word :
    (score v i : ℤ)
    → score ≡ wrap (pos 1000 +ℤ v -ℤ i)
    → to_word score ≡ (1000 + to_word v + 2 ^ 64 - to_word i) % 2 ^ 64
balance_word score v i h = rw h (omega word_laws)

balanced_valid :
    (score v i : ℤ)
    → score ≡ wrap (pos 1000 +ℤ v -ℤ i)
    → wrap (score +ℤ pos 1) ≡ wrap (pos 1000 +ℤ wrap (v +ℤ pos 1) -ℤ i)
balanced_valid score v i h = wrap_congr _ _ (omega (word_laws, balance_word score v i h))

balanced_invalid :
    (score v i : ℤ)
    → score ≡ wrap (pos 1000 +ℤ v -ℤ i)
    → wrap (score +ℤ negsuc 0) ≡ wrap (pos 1000 +ℤ v -ℤ wrap (i +ℤ pos 1))
balanced_invalid score v i h = wrap_congr _ _ (omega (word_laws, balance_word score v i h))

pub scored-IsBalanced : (valid : Bool) (p : Peer) → IsBalanced p → IsBalanced (scored valid p)
unfolding scored add64
scored-IsBalanced true p h =
    balanced_valid p.quality_score p.quality.valid_reports p.quality.invalid_reports h
scored-IsBalanced false p h =
    balanced_invalid p.quality_score p.quality.valid_reports p.quality.invalid_reports h

start_value : wrap (pos 1000 +ℤ pos 0 -ℤ pos 0) ≡ pos 1000
unfolding wrap ◌+ℤ◌ ◌-ℤ◌
start_value = refl

-- Every stored peer is balanced.
abbrev pub IsBalancedStore : Memory → Type 0
IsBalancedStore s = (id : Text) (p : Peer) → find id s.peers ≡ some p → IsBalanced p

module _ (s : Memory) (h : IsBalancedStore s) where
  put-IsBalanced :
      (id : Text) (q : Peer)
      → IsBalanced q
      → IsBalancedStore (record s { peers = put id q s.peers })
  put-IsBalanced id q new i p e = elim (find-put_cases id i q p s.peers e) [
    | inl (same, value) ↦ subst IsBalanced value new
    | inr (other, old) ↦ h i p old
  ]

  upsert_at-IsBalanced :
      (o : Outside) (req : RegisterRequest) (id : Text) (r : Option Peer)
      → find id s.peers ≡ r
      → IsBalancedStore (upsert_at req id (requested_peer o req id) r s)
  unfolding upsert_at store_peer
  upsert_at-IsBalanced o req id none found =
      put-IsBalanced id (new_peer req (requested_peer o req id)) (sym start_value)
  upsert_at-IsBalanced o req id (some old) found =
      put-IsBalanced id (renewed_peer req old (requested_peer o req id)) (h id old found)

  refresh_at-IsBalanced :
      (o : Outside) (req : RefreshRequest) (id : Text) (r : Option Peer)
      → find id s.peers ≡ r
      → IsBalancedStore (refresh_at o req id r s)
  unfolding refresh_at
  refresh_at-IsBalanced o req id none found = h
  refresh_at-IsBalanced o req id (some old) found =
      put-IsBalanced id (record old { last_seen = o.now }) (h id old found)

  upsert-IsBalanced : (o : Outside) (req : RegisterRequest) → IsBalancedStore (upsert o req s).1
  upsert-IsBalanced o req =
      upsert_outcome o req s (λ r. IsBalancedStore r.1) (λ _. h)
        λ _. upsert_at-IsBalanced o req (trim_space req.id) (find (trim_space req.id) s.peers) refl

  refresh-IsBalanced : (o : Outside) (req : RefreshRequest) → IsBalancedStore (refresh o req s).1
  refresh-IsBalanced o req =
      refresh_outcome o req s (λ r. IsBalancedStore r.1) (λ _. h)
        λ _. refresh_at-IsBalanced o req (trim_space req.id) (find (trim_space req.id) s.peers) refl

  delete-IsBalanced : (id : Text) → IsBalancedStore (delete id s).1
  delete-IsBalanced id =
      delete_outcome id s (λ r. IsBalancedStore r.1) (λ _. h)
        λ p _ i q e. h i q (find-remove_cases id i q s.peers e).1

  heartbeat-IsBalanced :
      (o : Outside) (id : Text) (ttl : ℤ) → IsBalancedStore (heartbeat o id ttl s).1
  heartbeat-IsBalanced o id ttl =
      heartbeat_outcome o id ttl s (λ r. IsBalancedStore r.1) (λ _. h)
        λ p found. put-IsBalanced id (beating o ttl p) (h id p found)

  report_chunk-IsBalanced :
      (o : Outside) (id : Text) (req : ChunkReportRequest)
      → IsBalancedStore (report_chunk o id req s).1
  report_chunk-IsBalanced o id req =
      report_chunk_outcome o id req s (λ r. IsBalancedStore r.1) (λ _. h)
        λ _ p _ _ _ found.
          put-IsBalanced (trim_space id) (scored _ p)
            (scored-IsBalanced _ p (h (trim_space id) p found))

  confirm_chunk-IsBalanced :
      (o : Outside) (req : ConfirmChunkRequest)
      → IsFair o
      → IsWell s
      → IsBalancedStore (confirm_chunk o req s).1
  confirm_chunk-IsBalanced o req fair w =
      confirm_chunk_outcome o req s (λ r. IsBalancedStore r.1) (λ _. h)
        λ _ p e _ _ _ found.
          let stored =
            peer_by_key_sound o 1 e.sender_id s fair w.directory.distinct w.directory.named found in
          put-IsBalanced p.id (scored _ p) (scored-IsBalanced _ p (h p.id p stored.0))

  delete_expired_chunks-IsBalanced : (o : Outside) → IsBalancedStore (delete_expired_chunks o s).1
  delete_expired_chunks-IsBalanced o = rw delete_expired_chunks_outcome h
