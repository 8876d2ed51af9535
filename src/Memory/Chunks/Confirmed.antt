-- ===== src/Memory/Chunks/Confirmed.antt =====
-- What an accepted confirmation leaves in the store.
use muninn.Prelude.{
  ◌≡◌, refl, Bool, true, false, some, List, [], ◌∷◌, arith, Bool-cases, inl, inr, if◌then◌else◌, ap,
  subst, ◌∙◌, ◌&&◌,
}
use muninn.Prelude.Int.{ℤ, pos, negsuc, add64}
use muninn.Text.{Text, text_eq, trim_space}
use muninn.Model.{Peer, ConfirmChunkRequest, ConfirmChunkResult, key}
use muninn.Outside.{Outside, IsFair, unix_now}
use muninn.Assoc.{find, put, find-put}
use muninn.Hash.{chunk_key, normalize_hash}
use muninn.Exec.{Result, ok}
use muninn.Memory.{Memory, ChunkRecordEntry, find_first}
use muninn.Memory.Lookup.{peer_by_key_sound}
use muninn.Memory.Invariant.{IsWell}
use muninn.Memory.Chunks.{confirm_chunk, update_first, confirm_entry, is_entry_for, scored}
use muninn.Memory.Chunks.Reports.{
  confirm_chunk_outcome, after_confirm, confirmed_hash, is_confirmed_entry,
}

-- The first entry that passes a test is the one that is updated, and passes it still.
find_first-update_first :
    (k r : Text) (now : ℤ) (es : List ChunkRecordEntry) {e : ChunkRecordEntry}
    → find_first (is_entry_for k r) es ≡ some e
    → find_first (is_entry_for k r) (update_first (is_entry_for k r) (confirm_entry now) es)
      ≡ some (confirm_entry now e)
unfolding find_first update_first
find_first-update_first k r now [] h = cc
find_first-update_first k r now (x ∷ es) {e} h = elim (Bool-cases (is_entry_for k r x)) [
  | inl passes ↦ rw (passes, passes) (ground arith)
  | inr fails ↦ rw (fails, fails) (find_first-update_first k r now es (rw fails at h))
]

ok_injective : {A : Type 0} {a b : A} → ◌≡◌ {A = Result A} (ok a) (ok b) → a ≡ b
ok_injective h = cc

-- A peer with one more report: a valid one adds one to the count of valid reports and to the score,
-- an invalid one adds one to the count of invalid reports and takes one from the score, both within
-- 64 bits.
abbrev pub credited : Bool → Peer → Peer
credited true p = record p {
  quality_score = add64 p.quality_score (pos 1);
  quality = record {
    valid_reports = add64 p.quality.valid_reports (pos 1);
    invalid_reports = p.quality.invalid_reports;
  };
}
credited false p = record p {
  quality_score = add64 p.quality_score (negsuc 0);
  quality = record {
    valid_reports = p.quality.valid_reports;
    invalid_reports = add64 p.quality.invalid_reports (pos 1);
  };
}

-- The entries of the chunk of the request that name its recipient.
abbrev pub is_meant : ConfirmChunkRequest → ChunkRecordEntry → Bool
is_meant req e =
    text_eq e.chunk (chunk_key (trim_space req.file_id) req.chunk_index)
    && text_eq e.recipient_id (trim_space req.recipient_id)

-- The result `c` of a confirmation on the state `s`, and the state `t` behind it, for the first
-- entry of the chunk that names the recipient.
pub record IsConfirmed (o : Outside) (req : ConfirmChunkRequest) (s : Memory)
    (c : ConfirmChunkResult) (t : Memory) : Type 0 where
  pub entry : ChunkRecordEntry
  pub found : find_first (is_meant req) s.chunks ≡ some entry
  pub verdict : c.valid ≡ text_eq (normalize_hash o.lower_wide req.hash) entry.hash
  pub updated :
      find_first (is_meant req) t.chunks
      ≡ some (if c.valid then record entry { confirmed = true; updated_at = unix_now o } else entry)
  pub sender : key c.peer ≡ entry.sender_id
  pub before : Peer
  pub present : find c.peer.id s.peers ≡ some before
  pub counted : c.peer ≡ credited c.valid before
  pub stored :
      (j : Text) → find j t.peers ≡ (if text_eq c.peer.id j then some c.peer else find j s.peers)

find_first-after_confirm :
    (k r : Text) (now : ℤ) (p : Peer) (valid : Bool) (s : Memory) {e : ChunkRecordEntry}
    → find_first (is_entry_for k r) s.chunks ≡ some e
    → find_first (is_entry_for k r) (after_confirm (is_entry_for k r) now p valid s).chunks
      ≡ some (if valid then confirm_entry now e else e)
find_first-after_confirm k r now p true s h = find_first-update_first k r now s.chunks h
find_first-after_confirm k r now p false s h = h

key-scored : (valid : Bool) (p : Peer) → key (scored valid p) ≡ key p
unfolding scored key
key-scored valid p = refl

find-scored :
    (valid : Bool) (p : Peer) (s : Memory) (j : Text)
    → find j (put p.id (scored valid p) s.peers)
      ≡ (if text_eq (scored valid p).id j then some (scored valid p) else find j s.peers)
unfolding scored
find-scored valid p s j = find-put p.id j _ s.peers

scored_lem : (valid : Bool) (p : Peer) → scored valid p ≡ credited valid p
unfolding scored
scored_lem true p = refl
scored_lem false p = refl

id-scored : (valid : Bool) (p : Peer) → (scored valid p).id ≡ p.id
unfolding scored
id-scored valid p = refl

-- An accepted confirmation is about the first entry of the chunk that names the recipient. It is
-- valid if the hash is the entry's; then the entry is marked as confirmed at this instant, and
-- otherwise it stays as it was. The peer that is returned has the key of the entry's sender. It is
-- the peer that was stored under its id with one more valid report and one more point if the
-- confirmation is valid, and with one more invalid report and one point less otherwise; it is
-- stored in that one's place, and what stands under every other id stays. This holds in a store
-- that calls have built.
pub confirm_chunk-IsConfirmed :
    (o : Outside) (req : ConfirmChunkRequest) (s : Memory)
    → IsFair o
    → IsWell s
    → (c : ConfirmChunkResult) → (confirm_chunk o req s).0 ≡ ok c
    → IsConfirmed o req s c (confirm_chunk o req s).1
confirm_chunk-IsConfirmed o req s fair w =
    confirm_chunk_outcome o req s
      (λ r. (c : ConfirmChunkResult) → r.0 ≡ ok c → IsConfirmed o req s c r.1) (λ _ c h. cc)
      λ recipient p e _ _ found present c h.
        let valid = text_eq (confirmed_hash o req s) e.hash in
        let sound =
          peer_by_key_sound o 1 e.sender_id s fair w.directory.distinct w.directory.named present in
        subst
          (λ (c : ConfirmChunkResult).
            IsConfirmed o req s c
              (after_confirm (is_confirmed_entry o req s) (unix_now o) p valid s))
          (ok_injective h)
          (record {
            entry = e;
            found = found;
            verdict = refl;
            updated = find_first-after_confirm _ _ (unix_now o) p valid s found;
            sender = key-scored valid p ∙ sound.1;
            before = p;
            present = ap (λ (id : Text). find id s.peers) (id-scored valid p) ∙ sound.0;
            counted = scored_lem valid p;
            stored = find-scored valid p s;
          })
