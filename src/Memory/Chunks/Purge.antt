-- ===== src/Memory/Chunks/Purge.antt =====
-- What `DeleteExpiredChunks` removes.
use muninn.Prelude.{
  ◌⊎◌, ℕ, ◌+◌, ◌≡◌, refl, Bool, true, false, not, List, [], ◌∷◌, arith, In, In-keep, keep-In, keep,
  length, ◌↔◌,
}
use muninn.Prelude.Int.{ℤ, pos, ◌+ℤ◌, ◌≤ℤ◌, IsInt, wrap_id, add64}
use muninn.Outside.{Outside, unix_now}
use muninn.Exec.{ok}
use muninn.Memory.{Memory, ChunkRecordEntry}
use muninn.Memory.Chunks.{delete_expired_chunks, is_chunk_expired}
use muninn.Memory.Signals.Outcome.{delete_expired_chunks_outcome}

length-keep-not :
    (test : ChunkRecordEntry → Bool) (es : List ChunkRecordEntry)
    → length (keep test es) + length (keep (λ e. not (test e)) es) ≡ length es
length-keep-not test [] = refl
length-keep-not test (e ∷ es) = ground (arith, length-keep-not test es)

not-true : (b : Bool) → not b ≡ true → b ≡ false
not-true b h = ground arith

not-false : (b : Bool) → b ≡ false → not b ≡ true
not-false b h = ground arith

-- The test of the loop, by the sum that it stands for.
is_chunk_expired_iff :
    (now : ℤ) (e : ChunkRecordEntry)
    → IsInt (e.created_at +ℤ e.ttl)
    → (is_chunk_expired now e ≡ false) ↔ ((e.persist ≡ true) ⊎ (now ≤ℤ e.created_at +ℤ e.ttl))
unfolding is_chunk_expired add64
is_chunk_expired_iff now e fits = rw (wrap_id (e.created_at +ℤ e.ttl) fits) (ground arith)

-- The purge keeps exactly the entries that persist and those whose time to live has not passed,
-- where the end of that time fits into 64 bits; it returns the number of entries that it removed.
pub delete_expired_chunks_lem :
    (o : Outside) (s : Memory)
    → ((e : ChunkRecordEntry)
        → IsInt (e.created_at +ℤ e.ttl)
        → In e (delete_expired_chunks o s).1.chunks
          ↔ (In e s.chunks × ((e.persist ≡ true) ⊎ (unix_now o ≤ℤ e.created_at +ℤ e.ttl))))
      × ((n : ℕ) × ((delete_expired_chunks o s).0 ≡ ok (pos n))
          × (n + length (delete_expired_chunks o s).1.chunks ≡ length s.chunks))
delete_expired_chunks_lem o s = rw delete_expired_chunks_outcome (
  λ e fits. (
    λ m.
        let kept = In-keep (λ e. not (is_chunk_expired (unix_now o) e)) s.chunks m in
        (kept.0, (is_chunk_expired_iff (unix_now o) e fits).0 (not-true _ kept.1)),
    λ h.
        keep-In (λ e. not (is_chunk_expired (unix_now o) e)) h.0
          (not-false _ ((is_chunk_expired_iff (unix_now o) e fits).1 h.1)),
  ),
  (
    length (keep (is_chunk_expired (unix_now o)) s.chunks),
    refl,
    length-keep-not (is_chunk_expired (unix_now o)) s.chunks,
  ),
)
