-- ===== src/Hash/Keys.antt =====
-- Chunk keys: what is read back from one, and that no two chunks share one.
use muninn.Prelude.{ℕ, ◌≡◌, ◌<◌, ◌^◌, refl, ap, arith, some, none, Option}
use muninn.Prelude.Int.{ℤ, pos}
use muninn.Text.{Text}
use muninn.Text.Decimal.{itoa}
use muninn.Text.Decimal.RoundTrip.{atoi-itoa, itoa-Lacks, itoa_injective}
use muninn.Text.Split.{split2, split2_first, split2-Lacks, cut_last, Lacks}
use muninn.Hash.{chunk_key, parse_chunk_key, parts_key}

-- The key of a chunk is read back, if the file's id has no `#`.
pub parse_chunk_key-chunk_key :
    (file_id : Text) (index : ℕ)
    → Lacks b'#' file_id
    → index < 2 ^ 63
    → parse_chunk_key (chunk_key file_id (pos index)) ≡ (file_id, pos index)
parse_chunk_key-chunk_key file_id index h k =
    unfold parse_chunk_key chunk_key in
    rw (split2_first b'#' file_id (itoa (pos index)) h)
      (ap (λ r. (file_id, r.0)) (atoi-itoa index k))

-- The file id that is read from a key never holds a `#`.
pub parse_chunk_key-Lacks : (s : Text) → Lacks b'#' (parse_chunk_key s).0
unfolding parse_chunk_key
parse_chunk_key-Lacks s = parts (split2 b'#' s) (λ a b e. (split2-Lacks b'#' s a b e).0)
  where
    parts :
        (r : Option (Text × Text))
        → ((a b : Text) → r ≡ some (a, b) → Lacks b'#' a)
        → Lacks b'#' (parts_key r).0
    parts none h = tt
    parts (some (a, b)) h = h a b refl

-- Two chunks with one key are one chunk, whatever the file ids hold.
pub chunk_key_injective : (f g : Text) (i j : ℤ) → chunk_key f i ≡ chunk_key g j → (f ≡ g) × (i ≡ j)
chunk_key_injective f g i j h =
    let cut =
      cut_last b'#' f g (itoa i) (itoa j) (itoa-Lacks b'#' i (omega arith))
        (itoa-Lacks b'#' j (omega arith)) (unfold chunk_key in h) in
    (cut.0, itoa_injective i j cut.1)
