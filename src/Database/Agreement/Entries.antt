-- ===== src/Database/Agreement/Entries.antt =====
-- What the methods of the memory store on lists of chunks return.
use muninn.Prelude.{◌≡◌, refl, false, keep, map, ◌&&◌}
use muninn.Prelude.Int.{ℤ, leb_ℤ}
use muninn.Text.{Text, is_empty, text_eq, trim_space}
use muninn.Hash.{parse_chunk_key}
use muninn.Exec.{ok, ◌>>=◌, continue, pure, reject_if, get}
use muninn.Memory.{Memory}
use muninn.Memory.Chunks.{to_record, get_chunks_by_file_id, get_chunks_by_recipient}

pub get_chunks_by_file_id-ok :
    (id : Text) (s : Memory)
    → is_empty (trim_space id) ≡ false
    → get_chunks_by_file_id id s ≡ (
      ok (
          map
            (to_record (trim_space id))
            (keep (λ e. text_eq (parse_chunk_key e.chunk).0 (trim_space id)) s.chunks)),
      s,
    )
unfolding get_chunks_by_file_id ◌>>=◌ continue pure reject_if get
get_chunks_by_file_id-ok id s named = rw named refl

pub get_chunks_by_recipient-ok :
    (id : Text) (from : ℤ) (s : Memory)
    → is_empty (trim_space id) ≡ false
    → get_chunks_by_recipient id from s ≡ (
      ok (
          map
            (λ e. to_record (parse_chunk_key e.chunk).0 e)
            (keep
              (λ e. text_eq e.recipient_id (trim_space id) && leb_ℤ from e.updated_at)
              s.chunks)),
      s,
    )
unfolding get_chunks_by_recipient ◌>>=◌ continue pure reject_if get
get_chunks_by_recipient-ok id from s named = rw named refl
