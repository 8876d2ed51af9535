-- ===== src/Hash.antt =====
-- internal/store/hash.go, and `parseChunkKey` of internal/store/memory.go.
pub mod Keys
pub mod Format
use muninn.Prelude.{
  ℕ, ◌+◌, ◌≡◌, refl, Bool, true, false, ◌&&◌, ◌||◌, List, [], ◌∷◌, ◌++◌, Option, none, some, leb,
  ◌==◌, if◌then◌else◌,
}
use muninn.Prelude.Int.{ℤ, pos, negsuc}
use muninn.Text.{Text, codes, byte_len, trim_space, to_lower}
use muninn.Text.Decimal.{itoa, atoi}
use muninn.Text.Split.{split2}

unfoldable pub normalize_hash : (ℕ → ℕ) → Text → Text
unfolding to_lower trim_space
normalize_hash lower_wide h = to_lower lower_wide (trim_space h)

abbrev pub hex_digit : ℕ → Bool
hex_digit c = leb b'0' c && leb c b'9' || leb b'a' c && leb c b'f'

abbrev pub all_hex : Text → Bool
all_hex [] = true
all_hex (c ∷ s) = hex_digit c && all_hex s

unfoldable pub valid_hash_format : Text → Bool
valid_hash_format h = if byte_len h == 16 then all_hex h else false

unfoldable pub chunk_key : Text → ℤ → Text
unfolding itoa
chunk_key file_id index = file_id ++ b'#' ∷ itoa index

abbrev parts_key : Option (Text × Text) → Text × ℤ
parts_key none = ([], negsuc 0)
parts_key (some (file_id, index)) = (file_id, (atoi index).0)

unfoldable pub parse_chunk_key : Text → Text × ℤ
unfolding split2 atoi
parse_chunk_key key = parts_key (split2 b'#' key)

hash_tests :
    (normalize_hash (λ c. c) (codes " 00FF ") ≡ codes "00ff")
    × (valid_hash_format (codes "0123456789abcdef") ≡ true)
    × (valid_hash_format (codes "0123456789abcdeg") ≡ false)
    × (chunk_key (codes "f") (pos 7) ≡ codes "f#7")
    × (parse_chunk_key (codes "a#1#2") ≡ (codes "a", pos 0))
unfolding normalize_hash valid_hash_format chunk_key parse_chunk_key
hash_tests = (refl, refl, refl, refl, refl)
