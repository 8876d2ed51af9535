-- ===== src/Database/Agreement/Stores.antt =====
-- The lists and the purges of the two stores, which agree.
use mathlib.Core.List.{Permᴰ}
use muninn.Prelude.{
  ℕ, ◌≡◌, refl, sym, ap, ◌∙◌, subst, Bool, false, ◌&&◌, none, List, All, keep, map, keep-perm,
  map-perm,
}
use muninn.Prelude.Int.{ℤ, pos, leb_ℤ}
use muninn.Text.{Text, codes, text_eq, is_empty, trim_space}
use muninn.Model.{ChunkRecord}
use muninn.Outside.{Outside, unix_now}
use muninn.Hash.{parse_chunk_key}
use muninn.Exec.{ok}
use muninn.Action.{done}
use muninn.Memory.{Memory, ChunkRecordEntry}
use muninn.Memory.Chunks as MemoryChunks
use muninn.Memory.Chunks.{to_record, is_chunk_expired}
use muninn.Memory.Signals.Outcome.{delete_expired_chunks_outcome}
use muninn.Database.{Database, ChunkRow, Server, IsFairServer}
use muninn.Database.Chunks as DatabaseChunks
use muninn.Database.Agreement.Answers.{
  get_chunks_by_file_id-done, get_chunks_by_recipient-done, delete_expired_chunks-done,
}
use muninn.Database.Chunks.{scan_chunk, is_since, is_of_file, purged, is_expired_row}
use muninn.Database.Agreement.Entries.{get_chunks_by_file_id-ok, get_chunks_by_recipient-ok}
use muninn.Database.Agreement.{
  entry_of, IsPlain, purged_entries, counted_entries, listed_entries, received_entries,
}

-- A memory store that has the entries of a table.
module _ (w : Server) (db : Database) (o : Outside) (s : Memory) (fair : IsFairServer w)
    (passes : (i : ℕ) → w.fails i ≡ none) (plain : All IsPlain db.chunks)
    (same : s.chunks ≡ map entry_of db.chunks) where
  listed_order :
      (test : ChunkRow → Bool)
      → Permᴰ
          (map scan_chunk (keep test (w.chunk_order 0 db.chunks)))
          (map scan_chunk (keep test db.chunks))
  listed_order test = map-perm scan_chunk (keep-perm test (fair.chunk_perm 0 db.chunks))

  -- A memory store that has the entries of a table lists the same chunks of a file as the
  -- database, up to their order, and the same chunks for a recipient from an instant on, for an id
  -- that is not blank, where no statement fails and a SELECT finds each row once. The file ids of
  -- the table hold no `#`, its indices are below 2^63 and the times to live end within 64 bits.
  pub lists_agree :
      (id : Text) (from : ℤ)
      → is_empty (trim_space id) ≡ false
      → ((rs ms : List ChunkRecord) × (DatabaseChunks.get_chunks_by_file_id w id db ≡ (done rs, db))
          × (MemoryChunks.get_chunks_by_file_id id s ≡ (ok ms, s))
          × Permᴰ rs ms)
        × ((rs ms : List ChunkRecord) × (DatabaseChunks.get_chunks_by_recipient w id from db
              ≡ (done rs, db))
            × (MemoryChunks.get_chunks_by_recipient id from s ≡ (ok ms, s))
            × Permᴰ rs ms)
  lists_agree id from named =
      let file = trim_space id in
      let es = map entry_of db.chunks in
      (
        (
          _,
          _,
          get_chunks_by_file_id-done w db passes id named,
          get_chunks_by_file_id-ok id s named,
          subst
              (λ (ms : List ChunkRecord).
                Permᴰ (map scan_chunk (keep (is_of_file file) (w.chunk_order 0 db.chunks))) ms)
              (listed_entries file db.chunks plain
                ∙ ap
                    (λ (es : List ChunkRecordEntry).
                      map (to_record file)
                        (keep (λ e. text_eq (parse_chunk_key e.chunk).0 file) es))
                    (sym same))
              (listed_order (is_of_file file)),
        ),
        (
          _,
          _,
          get_chunks_by_recipient-done w db passes id from named,
          get_chunks_by_recipient-ok id from s named,
          subst
              (λ (ms : List ChunkRecord).
                Permᴰ (map scan_chunk (keep (is_since file from) (w.chunk_order 0 db.chunks))) ms)
              (received_entries file from db.chunks plain
                ∙ ap
                    (λ (es : List ChunkRecordEntry).
                      map (λ e. to_record (parse_chunk_key e.chunk).0 e)
                        (keep (λ e. text_eq e.recipient_id file && leb_ℤ from e.updated_at) es))
                    (sym same))
              (listed_order (is_since file from)),
        ),
      )

  -- Under the same conditions and at one time the purge over SQLite and the one over the memory
  -- store remove as many chunks, and leave the memory store with the entries of the table again.
  pub purges_agree :
      w.clock ≡ unix_now o
      → (n : ℕ) × (DatabaseChunks.delete_expired_chunks w (codes "sqlite") db).0 ≡ done (pos n)
        × (MemoryChunks.delete_expired_chunks o s).0 ≡ ok (pos n)
        × ((MemoryChunks.delete_expired_chunks o s).1.chunks
            ≡ map entry_of (DatabaseChunks.delete_expired_chunks w (codes "sqlite") db).1.chunks)
  purges_agree clock =
      rw
        (
          delete_expired_chunks-done w db passes (codes "sqlite"),
          delete_expired_chunks_outcome,
          same,
          clock,
        )
        (
          _,
          refl,
          ap (λ n. ok (pos n)) (sym (counted_entries (unix_now o) db.chunks plain)),
          sym (purged_entries (unix_now o) db.chunks plain),
        )
