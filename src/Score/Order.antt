-- ===== src/Score/Order.antt =====
-- The order of the effective scores.
use native.Mathlib.Nat.{pow-suc, pow-zero}
use native.Mathlib.Nat.{le_trans}
use muninn.Prelude.{
  ℕ, suc, zero, ◌*◌, ◌-◌, ◌^◌, ◌≤◌, ◌<◌, ◌≡◌, ap, subst, ◌∙◌, arith, ◌⊎◌, inl, inr,
}
use muninn.Prelude.Int.{ℤ, pos, negsuc, ◌≤ℤ◌, ◌<ℤ◌, mul64, neg64}
use muninn.Model.{Peer, PeerFlag, very_thick}
use muninn.Score.{effective_score, signed_power, peer_flag_exponent}

-- A score is small if its cube fits into 64 bits: -2 ^ 21 < score < 2 ^ 21.
abbrev pub IsSmall : ℤ → Type 0
IsSmall (pos n) = n < 2 ^ 21
IsSmall (negsuc n) = suc n < 2 ^ 21

mul64_pos : (m n : ℕ) → m * n < 2 ^ 63 → mul64 (pos m) (pos n) ≡ pos (m * n)
unfolding mul64
mul64_pos m n h = ground arith

mul64_neg : (m n : ℕ) → suc m * suc n < 2 ^ 63 → mul64 (negsuc m) (negsuc n) ≡ pos (suc m * suc n)
unfolding mul64
mul64_neg m n h = ground arith

mul64_pos_neg :
    (m n : ℕ) → suc m * suc n < 2 ^ 63 → mul64 (pos (suc m)) (negsuc n) ≡ negsuc (suc m * suc n - 1)
unfolding mul64
mul64_pos_neg m n h = ground arith

neg64_pos : (m : ℕ) → suc m < 2 ^ 63 → neg64 (pos (suc m)) ≡ negsuc m
unfolding neg64
neg64_pos m h = ground arith

square_bound : (n : ℕ) → n < 2 ^ 21 → n * n < 2 ^ 42
square_bound n h = grind arith

cube_bound : (n : ℕ) → n < 2 ^ 21 → n * n * n < 2 ^ 63
cube_bound n h = grind (arith, square_bound)

one_mul64_pos : (n : ℕ) → n < 2 ^ 63 → mul64 (pos 1) (pos n) ≡ pos n
one_mul64_pos n h = mul64_pos 1 n (omega arith) ∙ ap pos (omega arith)

one_mul64_neg : (n : ℕ) → suc n < 2 ^ 21 → mul64 (pos 1) (negsuc n) ≡ negsuc n
one_mul64_neg n h = mul64_pos_neg 0 n (omega arith) ∙ ap negsuc (omega arith)

square_pos : (n : ℕ) → n < 2 ^ 21 → mul64 (pos n) (pos n) ≡ pos (n * n)
square_pos n h = mul64_pos n n (omega (arith, square_bound n h))

square_neg : (n : ℕ) → suc n < 2 ^ 21 → mul64 (negsuc n) (negsuc n) ≡ pos (suc n * suc n)
square_neg n h = mul64_neg n n (omega (arith, square_bound (suc n) h))

cube_pos : (n : ℕ) → n < 2 ^ 21 → mul64 (pos (n * n)) (pos n) ≡ pos (n * n * n)
cube_pos n h = mul64_pos (n * n) n (cube_bound n h)

cube_neg :
    (n : ℕ)
    → suc n < 2 ^ 21
    → mul64 (pos (suc n * suc n)) (negsuc n) ≡ negsuc (suc n * suc n * suc n - 1)
cube_neg n h =
    let e : suc n * suc n ≡ suc (suc n * suc n - 1) = omega arith in
    rw e (
      mul64_pos_neg (suc n * suc n - 1) n
        (subst (λ k. k * suc n < 2 ^ 63) e (cube_bound (suc n) h)))

-- The signed power without the bound on its size: the size's power, with the sign of the base.
abbrev pub exact : ℕ → ℤ → ℤ
exact k (pos n) = pos (n ^ k)
exact k (negsuc n) = negsuc (suc n ^ k - 1)

pow_one : (n : ℕ) → n ^ 1 ≡ n
pow_one n = rw (pow-suc, pow-zero) (omega arith)

pow_two : (n : ℕ) → n ^ 2 ≡ n * n
pow_two n = pow-suc n 1 ∙ ap (λ k. k * n) (pow_one n)

pow_three : (n : ℕ) → n ^ 3 ≡ n * n * n
pow_three n = pow-suc n 2 ∙ ap (λ k. k * n) (pow_two n)

signed_power_one : (s : ℤ) → IsSmall s → signed_power 1 s ≡ exact 1 s
unfolding signed_power
signed_power_one (pos n) h = rw pow_one (one_mul64_pos n (omega arith))
signed_power_one (negsuc n) h = rw (pow_one, one_mul64_neg n h) (ap negsuc (omega arith))

signed_power_two : (s : ℤ) → IsSmall s → signed_power 2 s ≡ exact 2 s
unfolding signed_power
signed_power_two (pos n) h =
    rw (pow_two, one_mul64_pos n (omega arith), square_pos n h) (ground arith)
signed_power_two (negsuc n) h =
    rw (pow_two, one_mul64_neg n h, square_neg n h) (ground (arith, square_bound (suc n) h))

signed_power_three : (s : ℤ) → IsSmall s → signed_power 3 s ≡ exact 3 s
unfolding signed_power
signed_power_three (pos n) h =
    rw (pow_three, one_mul64_pos n (omega arith), square_pos n h, cube_pos n h)
signed_power_three (negsuc n) h = rw (pow_three, one_mul64_neg n h, square_neg n h, cube_neg n h)

exponent_cases :
    (f : PeerFlag)
    → (peer_flag_exponent f ≡ 1) ⊎ (peer_flag_exponent f ≡ 2) ⊎ (peer_flag_exponent f ≡ 3)
unfolding peer_flag_exponent
exponent_cases f = ground arith

-- For a small score the loop of multiplications computes the power of the score's size, with the
-- sign of the score.
pub effective_score-exact :
    (p : Peer)
    → IsSmall p.quality_score
    → effective_score p ≡ exact (peer_flag_exponent p.peer_flag) p.quality_score
effective_score-exact p h = elim (exponent_cases p.peer_flag) [
  | inl e ↦ unfold effective_score in rw e (signed_power_one p.quality_score h)
  | inr (inl e) ↦ unfold effective_score in rw e (signed_power_two p.quality_score h)
  | inr (inr e) ↦ unfold effective_score in rw e (signed_power_three p.quality_score h)
]

mul_mono : (a b c d : ℕ) → a ≤ b → c ≤ d → a * c ≤ b * d
mul_mono a b c d h k = grind arith

pow_mono : (k m n : ℕ) → m ≤ n → m ^ k ≤ n ^ k
pow_mono zero m n h = rw (pow-zero, pow-zero) (omega arith)
pow_mono (suc k) m n h = rw (pow-suc, pow-suc) (mul_mono (m ^ k) (n ^ k) m n (pow_mono k m n h) h)

pow_pos : (k n : ℕ) → 1 ≤ suc n ^ k
pow_pos zero n = rw pow-zero (omega arith)
pow_pos (suc k) n = rw pow-suc (grind (arith, pow_pos k n))

exact_mono : (k : ℕ) (a b : ℤ) → a ≤ℤ b → exact k a ≤ℤ exact k b
exact_mono k (pos m) (pos n) h = omega (arith, pow_mono k m n (omega arith))
exact_mono k (pos m) (negsuc n) h = absurd (omega arith)
exact_mono k (negsuc m) (pos n) h = omega arith
exact_mono k (negsuc m) (negsuc n) h =
    omega (arith, pow_mono k (suc n) (suc m) (omega arith), pow_pos k n, pow_pos k m)

-- Of two peers with one flag and small scores, the one with the higher score does not rank lower.
pub effective_score_mono :
    (p q : Peer)
    → IsSmall p.quality_score
    → IsSmall q.quality_score
    → peer_flag_exponent p.peer_flag ≡ peer_flag_exponent q.peer_flag
    → p.quality_score ≤ℤ q.quality_score
    → effective_score p ≤ℤ effective_score q
effective_score_mono p q hp hq e h =
    rw (effective_score-exact p hp, effective_score-exact q hq, e)
      (exact_mono (peer_flag_exponent q.peer_flag) p.quality_score q.quality_score h)

mul64_wraps :
    (m n : ℕ)
    → 2 ^ 63 ≤ m * n
    → m * n < 2 ^ 64
    → mul64 (pos m) (pos n) ≡ negsuc (2 ^ 64 - 1 - m * n)
unfolding mul64
mul64_wraps m n h k = ground arith

power_wraps :
    (n : ℕ) → 2 ^ 21 ≤ n → n ≤ 2642245 → signed_power 3 (pos n) ≡ negsuc (2 ^ 64 - 1 - n * n * n)
unfolding signed_power
power_wraps n h k =
    let square_le : n * n ≤ 2642245 * 2642245 = mul_mono n 2642245 n 2642245 k k in
    let le_square : 2 ^ 21 * 2 ^ 21 ≤ n * n = mul_mono (2 ^ 21) n (2 ^ 21) n h h in
    rw (one_mul64_pos n (omega arith), mul64_pos n n (omega arith))
      (mul64_wraps (n * n) n
        (le_trans (omega arith) (mul_mono (2 ^ 42) (n * n) (2 ^ 21) n (omega arith) h))
        (omega (arith, mul_mono (n * n) (2642245 * 2642245) n 2642245 square_le k)))

-- From a score of 2 ^ 21 on the cube no longer fits, and wraps around: a peer of flag `very_thick`
-- with a score from 2097152 to 2642245 has a negative effective score.
pub effective_score_wraps :
    (p : Peer) (n : ℕ)
    → p.peer_flag ≡ very_thick
    → p.quality_score ≡ pos n
    → 2 ^ 21 ≤ n
    → n ≤ 2642245
    → effective_score p <ℤ pos 0
unfolding effective_score
effective_score_wraps p n flag score h k = rw (flag, score, power_wraps n h k) (omega arith)
