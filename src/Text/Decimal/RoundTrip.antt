-- ===== src/Text/Decimal/RoundTrip.antt =====
-- What `itoa` prints: decimal digits, from which the number is read back.
use muninn.Prelude.{
  ℕ, zero, suc, ◌+◌, ◌-◌, ◌*◌, ◌/◌, ◌%◌, ◌^◌, ◌≡◌, ◌≢◌, ◌≤◌, ◌<◌, refl, true, false, [], ◌∷◌, arith,
  All, ap, sym,
}
use muninn.Prelude.Int.{ℤ, pos, negsuc}
use muninn.Text.{Text}
use muninn.Text.Split.{Lacks}
use muninn.Text.Decimal.{digits, format_nat, itoa, atoi, signed, scan_uint}

abbrev IsDigit : ℕ → Type 0
IsDigit c = (b'0' ≤ c) × (c ≤ b'9')

digits-IsDigit : (f n : ℕ) (out : Text) → All IsDigit out → All IsDigit (digits f n out)
unfolding digits
digits-IsDigit zero n out h = h
digits-IsDigit (suc f) n out h = ground (arith, digits-IsDigit f (n / 10) ((b'0' + n % 10) ∷ out))

-- the number that the digits spell behind `n`
read : ℕ → Text → ℕ
read n [] = n
read n (c ∷ s) = read (n * 10 + (c - b'0')) s

read-digits : (f n : ℕ) (out : Text) → n < f → read 0 (digits f n out) ≡ read n out
unfolding digits read
read-digits zero n out h = absurd (omega arith)
read-digits (suc f) n out h =
    ground (arith, read-digits f (n / 10) ((b'0' + n % 10) ∷ out), read_last n out)
  where
    read_last : (n : ℕ) (out : Text) → read (n / 10) ((b'0' + n % 10) ∷ out) ≡ read n out
    read_last n out = ap (λ k. read k out) (omega arith)

read-format_nat : (n : ℕ) → read 0 (format_nat n) ≡ n
unfolding format_nat read
read-format_nat n = read-digits (suc n) n [] (omega arith)

-- Two numbers with one print are equal.
pub format_nat_injective : (m n : ℕ) → format_nat m ≡ format_nat n → m ≡ n
format_nat_injective m n h = cc (read-format_nat m, read-format_nat n, ap (read 0) h)

pub format_nat-IsDigit : (n : ℕ) → All IsDigit (format_nat n)
unfolding format_nat
format_nat-IsDigit n = digits-IsDigit (suc n) n [] tt

-- reading the last digit of `n` after the digits before it gives `n`
scan_last :
    (n : ℕ) (out : Text) → n < 2 ^ 63 → scan_uint ((b'0' + n % 10) ∷ out) (n / 10) ≡ scan_uint out n
unfolding scan_uint
scan_last n out h = ground arith

scan_first : (n : ℕ) (out : Text) → n < 10 → scan_uint ((b'0' + n) ∷ out) 0 ≡ scan_uint out n
unfolding scan_uint
scan_first n out h = ground arith

scan-digits :
    (f n : ℕ) (out : Text) → n < f → n < 2 ^ 63 → scan_uint (digits f n out) 0 ≡ scan_uint out n
unfolding digits
scan-digits zero n out h k = absurd (omega arith)
scan-digits (suc f) n out h k =
    ground
      (arith, scan-digits f (n / 10) ((b'0' + n % 10) ∷ out), scan_last n out k, scan_first n out)

digits-ne-nil : (f n : ℕ) (out : Text) → out ≢ [] → digits f n out ≢ []
unfolding digits
digits-ne-nil zero n out h = h
digits-ne-nil (suc f) n out h = ground (arith, digits-ne-nil f (n / 10) ((b'0' + n % 10) ∷ out))

pub format_nat-ne-nil : (n : ℕ) → format_nat n ≢ []
unfolding format_nat digits
format_nat-ne-nil n = ground (arith, digits-ne-nil n (n / 10) ((b'0' + n % 10) ∷ []))

atoi_digits : (s : Text) → s ≢ [] → All IsDigit s → atoi s ≡ signed false (scan_uint s 0)
unfolding atoi
atoi_digits [] h _ = absurd (h refl)
atoi_digits (c ∷ s) h (hc, hs) = ground arith

-- Every number below 2 ^ 63 is read back from its print.
pub atoi-itoa : (n : ℕ) → n < 2 ^ 63 → atoi (itoa (pos n)) ≡ (pos n, true)
unfolding itoa signed scan_uint
atoi-itoa n h =
    rw
      (
        atoi_digits (format_nat n) (format_nat-ne-nil n) (format_nat-IsDigit n),
        scan-digits (suc n) n [] (omega arith) h,
      )
      (ground arith)

-- What `itoa` prints holds digits and a minus sign only.
abbrev pub IsNumeral : ℕ → Type 0
IsNumeral c = (b'-' ≤ c) × (c ≤ b'9')

All-IsNumeral : (s : Text) → All IsDigit s → All IsNumeral s
All-IsNumeral [] h = tt
All-IsNumeral (c ∷ s) (hc, hs) = (omega arith, All-IsNumeral s hs)

pub itoa-IsNumeral : (z : ℤ) → All IsNumeral (itoa z)
unfolding itoa
itoa-IsNumeral (pos n) = All-IsNumeral _ (format_nat-IsDigit n)
itoa-IsNumeral (negsuc n) = (omega arith, All-IsNumeral _ (format_nat-IsDigit (suc n)))

sign_is_no_digit : (s t : Text) → All IsDigit s → s ≢ b'-' ∷ t
sign_is_no_digit [] t h e = cc
sign_is_no_digit (c ∷ s) t (hc, hs) e = ground arith

tail_eq : (c : ℕ) (s t : Text) → ◌≡◌ {A = Text} (c ∷ s) (c ∷ t) → s ≡ t
tail_eq c s t h = cc

-- Two integers with one print are equal.
pub itoa_injective : (a b : ℤ) → itoa a ≡ itoa b → a ≡ b
unfolding itoa
itoa_injective (pos m) (pos n) h = ap pos (format_nat_injective m n h)
itoa_injective (pos m) (negsuc n) h =
    absurd (sign_is_no_digit _ (format_nat (suc n)) (format_nat-IsDigit m) h)
itoa_injective (negsuc m) (pos n) h =
    absurd (sign_is_no_digit _ (format_nat (suc m)) (format_nat-IsDigit n) (sym h))
itoa_injective (negsuc m) (negsuc n) h =
    ground (arith, format_nat_injective (suc m) (suc n) (tail_eq b'-' _ _ h))

numeral_Lacks : (sep : ℕ) (s : Text) → sep < b'-' → All IsNumeral s → Lacks sep s
numeral_Lacks sep [] h _ = tt
numeral_Lacks sep (c ∷ s) h (hc, hs) = (λ e. omega arith, numeral_Lacks sep s h hs)

-- What `itoa` prints holds neither `#` nor a line feed.
pub itoa-Lacks : (sep : ℕ) (z : ℤ) → sep < b'-' → Lacks sep (itoa z)
itoa-Lacks sep z h = numeral_Lacks sep (itoa z) h (itoa-IsNumeral z)
