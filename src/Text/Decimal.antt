-- ===== src/Text/Decimal.antt =====
-- `strconv.Itoa` and `strconv.Atoi`.
pub mod RoundTrip
use muninn.Prelude.{
  ℕ, zero, suc, ◌+◌, ◌-◌, ◌*◌, ◌/◌, ◌%◌, ◌^◌, ◌≡◌, ◌≤◌, ◌<◌, refl, true, false, Bool, ◌||◌, [], ◌∷◌,
  ◌++◌, arith, ltb, leb, ◌==◌, if◌then◌else◌,
}
use muninn.Prelude.Int.{ℤ, pos, negsuc, int_max, int_min}
use muninn.Text.{Text, codes}

-- The digits of `n` in front of `out`; the fuel `suc n` is more than the number of digits.
digits : ℕ → ℕ → Text → Text
digits zero n out = out
digits (suc f) n out =
    let more = digits f (n / 10) ((b'0' + n % 10) ∷ out) in
    if ltb n 10 then (b'0' + n) ∷ out else more

unfoldable pub format_nat : ℕ → Text
unfolding digits
format_nat n = digits (suc n) n []

unfoldable pub itoa : ℤ → Text
unfolding format_nat
itoa (pos n) = format_nat n
itoa (negsuc n) = b'-' ∷ format_nat (suc n)

pub data Scan : Type 0 where
  value : ℕ → Scan
  syntax_error range_error : Scan

-- The loop of `strconv.ParseUint` in base 10 with 64 bits.
scan_uint : Text → ℕ → Scan
scan_uint [] n = value n
scan_uint (c ∷ s) n =
    let d = c - b'0' in
    let rest = scan_uint s (n * 10 + d) in
    if ltb c b'0' || ltb b'9' c
    then syntax_error
    else if leb (2 ^ 64 / 10 + 1) n
    then range_error
    else if ltb (2 ^ 64 - 1) (n * 10 + d)
    then range_error
    else rest

-- `ParseInt` on a text without its sign: the value, and whether there was no error.
signed : Bool → Scan → ℤ × Bool
signed neg syntax_error = (pos 0, false)
signed true range_error = (int_min, false)
signed false range_error = (int_max, false)
signed true (value n) =
    if ltb (2 ^ 63) n
    then (int_min, false)
    else if n == 0
    then (pos 0, true)
    else (negsuc (n - 1), true)
signed false (value n) = if leb (2 ^ 63) n then (int_max, false) else (pos n, true)

uint : Text → Scan
unfolding scan_uint
uint [] = syntax_error
uint (c ∷ s) = scan_uint (c ∷ s) 0

-- `strconv.Atoi`, and `strconv.ParseInt(s, 10, 64)`.
unfoldable pub atoi : Text → ℤ × Bool
unfolding signed uint
atoi [] = (pos 0, false)
atoi (c ∷ s) =
    if c == b'-'
    then signed true (uint s)
    else if c == b'+'
    then signed false (uint s)
    else signed false (uint (c ∷ s))

itoa_tests : (itoa (pos 105) ≡ codes "105") × (itoa (negsuc 9) ≡ codes "-10")
unfolding itoa
itoa_tests = (refl, refl)

atoi_tests :
    (atoi (codes "1#2") ≡ (pos 0, false))
    × (atoi (codes "-12") ≡ (negsuc 11, true))
    × (atoi (codes "99999999999999999999") ≡ (int_max, false))
unfolding atoi
atoi_tests = (refl, refl, refl)
