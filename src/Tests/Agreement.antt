-- ===== src/Tests/Agreement.antt =====
-- Examples of the two stores side by side.
use mathlib.Core.List.{Permᴰ}
use muninn.Prelude.{ℕ, ◌≡◌, refl, false, arith, map, All, List}
use muninn.Prelude.Int.{pos, ◌+ℤ◌, floor_div}
use muninn.Text.{codes, is_empty, trim_space}
use muninn.Model.{ChunkRecord}
use muninn.Outside.{unix_now}
use muninn.Exec.{ok}
use muninn.Action.{done}
use muninn.Memory.{Memory, new_memory}
use muninn.Memory.Chunks as MemoryChunks
use muninn.Database.Chunks as DatabaseChunks
use muninn.Database.Agreement.{entry_of, IsPlain}
use muninn.Database.Agreement.Stores.{lists_agree, purges_agree}
use muninn.Tests.{outside}
use muninn.Tests.Database.{server, server-IsFairServer, sample_database}

abbrev sample_memory : Memory
sample_memory = record new_memory { chunks = map entry_of sample_database.chunks }

sample_database-IsPlain : All IsPlain sample_database.chunks
unfolding ◌+ℤ◌
sample_database-IsPlain = (
  record {
    lacks = ((λ e. omega (arith, e)), tt);
    index = 0;
    indexed = refl;
    small = omega arith;
    fits = (omega arith, omega arith);
  },
  tt,
)

named : is_empty (trim_space (codes " f")) ≡ false
unfolding trim_space
named = refl

lists_agree_example :
    ((rs ms : List ChunkRecord) × (DatabaseChunks.get_chunks_by_file_id
          (server 104)
          (codes " f")
          sample_database
        ≡ (done rs, sample_database))
      × (MemoryChunks.get_chunks_by_file_id (codes " f") sample_memory ≡ (ok ms, sample_memory))
      × Permᴰ rs ms)
    × ((rs ms : List ChunkRecord) × (DatabaseChunks.get_chunks_by_recipient
            (server 104)
            (codes " f")
            (pos 0)
            sample_database
          ≡ (done rs, sample_database))
        × (MemoryChunks.get_chunks_by_recipient (codes " f") (pos 0) sample_memory
            ≡ (ok ms, sample_memory))
        × Permᴰ rs ms)
lists_agree_example =
    lists_agree (server 104) sample_database (outside 104) sample_memory (server-IsFairServer 104)
      (λ i. refl) sample_database-IsPlain refl (codes " f") (pos 0) named

one_clock : (server 200).clock ≡ unix_now (outside 200)
unfolding unix_now floor_div
one_clock = refl

purges_agree_example :
    (n : ℕ) × (DatabaseChunks.delete_expired_chunks (server 200) (codes "sqlite") sample_database).0
      ≡ done (pos n)
    × (MemoryChunks.delete_expired_chunks (outside 200) sample_memory).0 ≡ ok (pos n)
    × ((MemoryChunks.delete_expired_chunks (outside 200) sample_memory).1.chunks
        ≡ map entry_of
            (DatabaseChunks.delete_expired_chunks
              (server 200)
              (codes "sqlite")
              sample_database).1.chunks)
purges_agree_example =
    purges_agree (server 200) sample_database (outside 200) sample_memory (server-IsFairServer 200)
      (λ i. refl) sample_database-IsPlain refl one_clock
