-- ===== src/Database/Agreement.antt =====
-- The two stores side by side: a table of chunks and the entries that the memory store would have
-- for its rows.
pub mod Answers
pub mod Entries
pub mod Stores
use mathlib.Core.List.{Permᴰ}
use mathlib.Core.List.Permᴰ
use muninn.Prelude.{
  ℕ, ◌≡◌, suc, ◌<◌, ◌^◌, refl, sym, ap, ◌∙◌, subst, Bool, true, false, not, ◌&&◌, ◌||◌, none, List,
  [], ◌∷◌, All, Bool-cases, inl, inr, keep, map, length, if◌then◌else◌, arith, keep-perm, map-perm,
}
use muninn.Prelude.Int.{ℤ, pos, ◌+ℤ◌, IsInt, wrap_id, add64, eqb_ℤ, ltb_ℤ, leb_ℤ}
use muninn.Text.{Text, codes, text_eq, is_empty, trim_space}
use muninn.Text.Equality.{eq_of_text_eq}
use muninn.Text.Split.{Lacks}
use muninn.Model.{ChunkRecord}
use muninn.Outside.{Outside, unix_now}
use muninn.Hash.{chunk_key, parse_chunk_key}
use muninn.Hash.Keys.{parse_chunk_key-chunk_key}
use muninn.Exec.{ok}
use muninn.Action.{done}
use muninn.Memory.{Memory, ChunkRecordEntry}
use muninn.Memory.Chunks as MemoryChunks
use muninn.Memory.Chunks.{to_record, is_chunk_expired}
use muninn.Memory.Signals.Outcome.{delete_expired_chunks_outcome}
use muninn.Database.{Database, ChunkRow, Server, IsFairServer, delete_where, statement}
use muninn.Database.Chunks as DatabaseChunks
use muninn.Database.Agreement.Answers.{
  get_chunks_by_file_id-done, get_chunks_by_recipient-done, delete_expired_chunks-done,
}
use muninn.Database.Chunks.{scan_chunk, is_since, is_of_file, purged, is_expired_row}
use muninn.Database.Agreement.Entries.{get_chunks_by_file_id-ok, get_chunks_by_recipient-ok}

-- The entry of the memory store for a row.
abbrev pub entry_of : ChunkRow → ChunkRecordEntry
entry_of row = record {
  chunk = chunk_key row.file_id row.chunk_index;
  hash = row.expected_hash;
  sender_id = row.sender_id;
  recipient_id = row.recipient_id;
  peer_id = row.holder_peer_id;
  persist = not (eqb_ℤ row.persist (pos 0));
  confirmed = not (eqb_ℤ row.confirmed (pos 0));
  readed = not (eqb_ℤ row.readed (pos 0));
  created_at = row.created_at;
  updated_at = row.updated_at;
  ttl = row.ttl;
}

-- The file's id has no `#`, the index is below 2^63, and the end of the time to live fits into 64
-- bits.
pub record IsPlain (row : ChunkRow) : Type 0 where
  pub lacks : Lacks b'#' row.file_id
  pub index : ℕ
  pub indexed : row.chunk_index ≡ pos index
  pub small : index < 2 ^ 63
  pub fits : IsInt (row.created_at +ℤ row.ttl)

module _ (row : ChunkRow) (h : IsPlain row) where
  parse_entry : parse_chunk_key (entry_of row).chunk ≡ (row.file_id, row.chunk_index)
  parse_entry =
      subst (λ (i : ℤ). parse_chunk_key (chunk_key row.file_id i) ≡ (row.file_id, i))
        (sym h.indexed) (parse_chunk_key-chunk_key row.file_id h.index h.lacks h.small)

  listed_entry :
      (file_id : Text) → row.file_id ≡ file_id → scan_chunk row ≡ to_record file_id (entry_of row)
  listed_entry file_id e = λ i. record (scan_chunk row) {
    file_id = e i;
    chunk_index = sym (ap (λ (x : Text × ℤ). x.1) parse_entry) i;
  }

  expired_alike : (now : ℤ) → is_chunk_expired now (entry_of row) ≡ is_expired_row now row
  unfolding is_chunk_expired add64
  expired_alike now =
      rw (wrap_id (row.created_at +ℤ row.ttl) h.fits) (twice (eqb_ℤ row.persist (pos 0)))
    where
      twice :
          (b : Bool)
          → (not (not b) && ltb_ℤ (row.created_at +ℤ row.ttl) now)
            ≡ (b && ltb_ℤ (row.created_at +ℤ row.ttl) now)
      twice true = refl
      twice false = refl

pub purged_entries :
    (now : ℤ) (rows : List ChunkRow)
    → All IsPlain rows
    → map entry_of (delete_where (is_expired_row now) rows)
      ≡ keep (λ e. not (is_chunk_expired now e)) (map entry_of rows)
unfolding delete_where
purged_entries now [] h = refl
purged_entries now (row ∷ rows) (hr, h) = elim (Bool-cases (is_expired_row now row)) [
  | inl e ↦ rw (expired_alike row hr now, e) (purged_entries now rows h)
  | inr e ↦
      rw (expired_alike row hr now, e) (ap (λ es. entry_of row ∷ es) (purged_entries now rows h))
]

pub counted_entries :
    (now : ℤ) (rows : List ChunkRow)
    → All IsPlain rows
    → length (keep (is_expired_row now) rows)
      ≡ length (keep (is_chunk_expired now) (map entry_of rows))
counted_entries now [] h = refl
counted_entries now (row ∷ rows) (hr, h) = elim (Bool-cases (is_expired_row now row)) [
  | inl e ↦ rw (expired_alike row hr now, e) (ap suc (counted_entries now rows h))
  | inr e ↦ rw (expired_alike row hr now, e) (counted_entries now rows h)
]

pub listed_entries :
    (file_id : Text) (rows : List ChunkRow)
    → All IsPlain rows
    → map scan_chunk (keep (is_of_file file_id) rows)
      ≡ map
          (to_record file_id)
          (keep (λ e. text_eq (parse_chunk_key e.chunk).0 file_id) (map entry_of rows))
listed_entries file_id [] h = refl
listed_entries file_id (row ∷ rows) (hr, h) = elim (Bool-cases (text_eq row.file_id file_id)) [
  | inl e ↦
      rw (parse_entry row hr, e)
        (λ i.
          listed_entry row hr file_id (eq_of_text_eq row.file_id file_id e) i
          ∷ listed_entries file_id rows h i)
  | inr e ↦ rw (parse_entry row hr, e) (listed_entries file_id rows h)
]

pub received_entries :
    (recipient_id : Text) (from : ℤ) (rows : List ChunkRow)
    → All IsPlain rows
    → map scan_chunk (keep (is_since recipient_id from) rows)
      ≡ map
          (λ e. to_record (parse_chunk_key e.chunk).0 e)
          (keep
            (λ e. text_eq e.recipient_id recipient_id && leb_ℤ from e.updated_at)
            (map entry_of rows))
received_entries recipient_id from [] h = refl
received_entries recipient_id from (row ∷ rows) (hr, h) =
    elim (Bool-cases (is_since recipient_id from row)) [
      | inl e ↦
          rw (e, parse_entry row hr)
            (ap (λ rs. scan_chunk row ∷ rs) (received_entries recipient_id from rows h))
      | inr e ↦ rw e (received_entries recipient_id from rows h)
    ]
