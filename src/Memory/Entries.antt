-- ===== src/Memory/Entries.antt =====
-- The invariant of the chunk entries.
use muninn.Prelude.{
  ◌≡◌, refl, Bool, true, false, List, [], ◌∷◌, arith, All, keep, if◌then◌else◌, Bool-cases, inl,
  inr,
}
use muninn.Prelude.Int.{ℤ, pos, ◌<ℤ◌}
use muninn.Text.{Text, is_empty, trim_space}
use muninn.Model.{RegisterChunkRequest}
use muninn.Outside.{Outside}
use muninn.Hash.{valid_hash_format, chunk_key}
use muninn.Memory.{ChunkRecordEntry}
use muninn.Memory.Chunks.{bad_index, update_first, mark_read, confirm_entry}
use muninn.Memory.Chunks.Outcome.{new_entry, IsChunkRequest}

-- The entry is for a chunk with a file and an index, has a well-formed hash, names its sender, its
-- recipient and its holder, and is kept for a positive time.
pub record IsEntry (e : ChunkRecordEntry) : Type 0 where
  pub file_id : Text
  pub index : ℤ
  pub keyed : e.chunk ≡ chunk_key file_id index
  pub has_file : is_empty file_id ≡ false
  pub has_index : bad_index index ≡ false
  pub hash : valid_hash_format e.hash ≡ true
  pub sender : is_empty e.sender_id ≡ false
  pub recipient : is_empty e.recipient_id ≡ false
  pub peer : is_empty e.peer_id ≡ false
  pub ttl : pos 0 <ℤ e.ttl

pub new_entry-IsEntry :
    (o : Outside) (f : Text) (i : ℤ) (req : RegisterChunkRequest)
    → IsChunkRequest o f i req
    → IsEntry (new_entry o f i req)
new_entry-IsEntry o f i req h = record {
  file_id = trim_space f;
  index = i;
  keyed = refl;
  has_file = h.file;
  has_index = h.index;
  hash = h.format;
  sender = h.sender;
  recipient = h.recipient;
  peer = h.peer;
  ttl = ground arith;
}

-- The marks on an entry do not matter.
abbrev remark :
    {e : ChunkRecordEntry} (c r : Bool) (t : ℤ)
    → IsEntry e
    → IsEntry (record e { confirmed = c; readed = r; updated_at = t })
remark c r t h = record {
  file_id = h.file_id;
  index = h.index;
  keyed = h.keyed;
  has_file = h.has_file;
  has_index = h.has_index;
  hash = h.hash;
  sender = h.sender;
  recipient = h.recipient;
  peer = h.peer;
  ttl = h.ttl;
}

pub update_first-IsEntry :
    (test : ChunkRecordEntry → Bool) (now : ℤ) (es : List ChunkRecordEntry)
    → All IsEntry es
    → All IsEntry (update_first test (confirm_entry now) es)
unfolding update_first
update_first-IsEntry test now [] h = tt
update_first-IsEntry test now (e ∷ es) (he, hes) = elim (Bool-cases (test e)) [
  | inl hit ↦ rw hit (remark true e.readed now he, hes)
  | inr miss ↦ rw miss (he, update_first-IsEntry test now es hes)
]

mark_one :
    (b : Bool) (now : ℤ) (e : ChunkRecordEntry)
    → IsEntry e
    → IsEntry (if b then record e { readed = true; updated_at = now } else e)
mark_one true now e h = remark e.confirmed true now h
mark_one false now e h = h

pub mark_read-IsEntry :
    (test : ChunkRecordEntry → Bool) (now : ℤ) (es : List ChunkRecordEntry)
    → All IsEntry es
    → All IsEntry (mark_read test now es)
unfolding mark_read
mark_read-IsEntry test now [] h = tt
mark_read-IsEntry test now (e ∷ es) (he, hes) =
    (mark_one (test e) now e he, mark_read-IsEntry test now es hes)

pub keep-All {ℓ κ} :
    {A : Type ℓ} (P : A → Type κ) (test : A → Bool) (xs : List A) → All P xs → All P (keep test xs)
keep-All P test [] h = tt
keep-All P test (x ∷ xs) (hx, hxs) = elim (Bool-cases (test x)) [
  | inl e ↦ rw e (hx, keep-All P test xs hxs)
  | inr e ↦ rw e (keep-All P test xs hxs)
]
