-- ===== src/Hash/Format.antt =====
-- What `validHashFormat` accepts after `normalizeHash`.
use muninn.Prelude.{ℕ, ◌≡◌, ◌≤◌, refl, true, [], ◌∷◌, arith, All, length, ◌⊎◌, ◌↔◌}
use muninn.Text.{Text, byte_len}
use muninn.Text.Split.{Lacks}
use muninn.Hash.{valid_hash_format, all_hex, hex_digit}

abbrev pub IsHex : ℕ → Type 0
IsHex c = ((b'0' ≤ c) × (c ≤ b'9')) ⊎ ((b'a' ≤ c) × (c ≤ b'f'))

IsHex-of_hex_digit : (c : ℕ) → hex_digit c ≡ true → IsHex c
IsHex-of_hex_digit c h = ground arith

hex_digit_of_IsHex : (c : ℕ) → IsHex c → hex_digit c ≡ true
hex_digit_of_IsHex c h = ground arith

all_hex_sound : (s : Text) → all_hex s ≡ true → All IsHex s
all_hex_sound [] h = tt
all_hex_sound (c ∷ s) h = (IsHex-of_hex_digit c (ground arith), all_hex_sound s (ground arith))

all_hex_complete : (s : Text) → All IsHex s → all_hex s ≡ true
all_hex_complete [] h = refl
all_hex_complete (c ∷ s) (hc, hs) = rw (hex_digit_of_IsHex c hc) (all_hex_complete s hs)

-- A hexadecimal digit takes one byte.
byte_len_hex : (s : Text) → All IsHex s → byte_len s ≡ length s
byte_len_hex [] h = refl
byte_len_hex (c ∷ s) (hc, hs) = ground (arith, byte_len_hex s hs)

abbrev pub IsHash : Text → Type 0
IsHash s = (length s ≡ 16) × All IsHex s

format_sound : (s : Text) → valid_hash_format s ≡ true → IsHash s
unfolding valid_hash_format
format_sound s h =
    let digits = all_hex_sound s (ground arith) in (ground (arith, byte_len_hex s digits), digits)

format_complete : (s : Text) → IsHash s → valid_hash_format s ≡ true
unfolding valid_hash_format
format_complete s (n, h) = ground (arith, byte_len_hex s h, all_hex_complete s h)

-- The accepted texts are those of sixteen lower-case hexadecimal digits.
pub valid_hash_format_iff : (s : Text) → (valid_hash_format s ≡ true) ↔ IsHash s
valid_hash_format_iff s = (format_sound s, format_complete s)

hex-Lacks : (s : Text) → All IsHex s → Lacks b'\n' s
hex-Lacks [] h = tt
hex-Lacks (c ∷ s) (hc, hs) = (λ e. omega arith, hex-Lacks s hs)

-- An accepted hash holds no line feed.
pub valid_hash-Lacks : (s : Text) → valid_hash_format s ≡ true → Lacks b'\n' s
valid_hash-Lacks s h = hex-Lacks s (format_sound s h).1
