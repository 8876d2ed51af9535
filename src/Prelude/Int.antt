-- ===== src/Prelude/Int.antt =====
-- Signed integers over the native numbers (the library's ℤ stands on the unary ones), and Go's
-- `int`/`int64`: the integers of 64 bits, whose arithmetic wraps around.
use Prim.Native.Nat.{ℕ, suc, ◌+◌, ◌-◌, ◌*◌, ◌/◌, ◌%◌, ◌^◌, ◌≤◌, ◌<◌}
use mathlib.Core.Path.{◌≡◌, ap}
use mathlib.Core.Bool.{Bool}
use native.Mathlib.Omega.{arith}
use muninn.Prelude.Tests.{ltb, leb, ◌==◌, if◌then◌else◌}

-- `negsuc n` is -(n + 1).
pub data ℤ : Type 0 where
  pos : ℕ → ℤ
  negsuc : ℕ → ℤ

abbrev pub pos_part : ℤ → ℕ
pos_part (pos n) = n
pos_part (negsuc n) = 0

abbrev pub neg_part : ℤ → ℕ
neg_part (pos n) = 0
neg_part (negsuc n) = suc n

-- a - b, as an integer.
abbrev pub sub_ℕ : ℕ → ℕ → ℤ
sub_ℕ a b = if leb b a then pos (a - b) else negsuc (b - a - 1)

infixl 65 ◌+ℤ◌ ◌-ℤ◌
infixl 70 ◌*ℤ◌
infix 50 ◌≤ℤ◌ ◌<ℤ◌
unfoldable pub ◌+ℤ◌ : ℤ → ℤ → ℤ
a +ℤ b = sub_ℕ (pos_part a + pos_part b) (neg_part a + neg_part b)

unfoldable pub ◌-ℤ◌ : ℤ → ℤ → ℤ
a -ℤ b = sub_ℕ (pos_part a + neg_part b) (neg_part a + pos_part b)

unfoldable pub ◌*ℤ◌ : ℤ → ℤ → ℤ
a *ℤ b =
    sub_ℕ (pos_part a * pos_part b + neg_part a * neg_part b)
      (pos_part a * neg_part b + neg_part a * pos_part b)

abbrev pub ◌≤ℤ◌ : ℤ → ℤ → Type 0
a ≤ℤ b = pos_part a + neg_part b ≤ pos_part b + neg_part a

abbrev pub ◌<ℤ◌ : ℤ → ℤ → Type 0
a <ℤ b = pos_part a + neg_part b < pos_part b + neg_part a

abbrev pub ltb_ℤ : ℤ → ℤ → Bool
ltb_ℤ a b = ltb (pos_part a + neg_part b) (pos_part b + neg_part a)

abbrev pub leb_ℤ : ℤ → ℤ → Bool
leb_ℤ a b = leb (pos_part a + neg_part b) (pos_part b + neg_part a)

abbrev pub eqb_ℤ : ℤ → ℤ → Bool
eqb_ℤ a b = pos_part a + neg_part b == pos_part b + neg_part a

pub +ℤ_parts :
    (a b : ℤ)
    → pos_part (a +ℤ b) + neg_part a + neg_part b ≡ neg_part (a +ℤ b) + pos_part a + pos_part b
unfolding ◌+ℤ◌
+ℤ_parts a b = ground arith

pub eq_of_parts : (a b : ℤ) → pos_part a + neg_part b ≡ pos_part b + neg_part a → a ≡ b
eq_of_parts a b h = ground arith

pub ruleset int_laws = (arith, +ℤ_parts, eq_of_parts)

-- The bit pattern of an integer, as a number below 2 ^ 64, and back.
unfoldable pub to_word : ℤ → ℕ
to_word (pos n) = n % 2 ^ 64
to_word (negsuc n) = 2 ^ 64 - 1 - n % 2 ^ 64

unfoldable pub of_word : ℕ → ℤ
of_word w = if ltb w (2 ^ 63) then pos w else negsuc (2 ^ 64 - 1 - w)

-- The result of an operation on `int64`.
unfoldable pub wrap : ℤ → ℤ
unfolding to_word of_word
wrap z = of_word (to_word z)

abbrev pub int_max : ℤ
int_max = pos (2 ^ 63 - 1)

abbrev pub int_min : ℤ
int_min = negsuc (2 ^ 63 - 1)

-- The range of `int64`.
abbrev pub IsInt : ℤ → Type 0
IsInt z = (int_min ≤ℤ z) × (z ≤ℤ int_max)

pub wrap-IsInt : (z : ℤ) → IsInt (wrap z)
unfolding wrap
wrap-IsInt (pos n) = ground arith
wrap-IsInt (negsuc n) = ground arith

-- Nothing happens to a value that fits.
pub wrap_id : (z : ℤ) → IsInt z → wrap z ≡ z
unfolding wrap
wrap_id (pos n) h = ground arith
wrap_id (negsuc n) h = ground arith

unfoldable pub add64 : ℤ → ℤ → ℤ
unfolding wrap ◌+ℤ◌
add64 a b = wrap (a +ℤ b)

unfoldable pub mul64 : ℤ → ℤ → ℤ
unfolding wrap ◌*ℤ◌
mul64 a b = wrap (a *ℤ b)

unfoldable pub neg64 : ℤ → ℤ
unfolding wrap ◌-ℤ◌
neg64 a = wrap (pos 0 -ℤ a)

-- The quotient by a positive number, rounded down.
unfoldable pub floor_div : ℤ → ℕ → ℤ
floor_div (pos n) k = pos (n / k)
floor_div (negsuc n) k = negsuc (n / k)

-- The bit pattern of a sum, a difference and a wrapped value.
pub to_word-+ℤ : (a b : ℤ) → to_word (a +ℤ b) ≡ (to_word a + to_word b) % 2 ^ 64
unfolding to_word ◌+ℤ◌
to_word-+ℤ (pos m) (pos n) = ground arith
to_word-+ℤ (pos m) (negsuc n) = ground arith
to_word-+ℤ (negsuc m) (pos n) = ground arith
to_word-+ℤ (negsuc m) (negsuc n) = ground arith

pub to_word--ℤ : (a b : ℤ) → to_word (a -ℤ b) ≡ (to_word a + 2 ^ 64 - to_word b) % 2 ^ 64
unfolding to_word ◌-ℤ◌
to_word--ℤ (pos m) (pos n) = ground arith
to_word--ℤ (pos m) (negsuc n) = ground arith
to_word--ℤ (negsuc m) (pos n) = ground arith
to_word--ℤ (negsuc m) (negsuc n) = ground arith

pub to_word-lt : (a : ℤ) → to_word a < 2 ^ 64
unfolding to_word
to_word-lt (pos n) = omega arith
to_word-lt (negsuc n) = omega arith

pub to_word-wrap : (a : ℤ) → to_word (wrap a) ≡ to_word a
unfolding wrap
to_word-wrap (pos n) = ground arith
to_word-wrap (negsuc n) = ground arith

-- Two integers of one bit pattern wrap around to one value.
pub wrap_congr : (a b : ℤ) → to_word a ≡ to_word b → wrap a ≡ wrap b
unfolding wrap
wrap_congr a b h = ap of_word h
