-- ===== src/Text/Split.antt =====
-- `strings.SplitN(s, sep, 2)` for a separator of one character.
use muninn.Prelude.{
  ℕ, ◌≡◌, refl, ◌≢◌, [], ◌∷◌, ◌++◌, arith, ◌==◌, Option, none, some, if◌then◌else◌, All, subst, sym,
}
use muninn.Text.{Text}

abbrev prepend : ℕ → Option (Text × Text) → Option (Text × Text)
prepend c none = none
prepend c (some (a, b)) = some (c ∷ a, b)

-- The parts before and behind the first separator; `none` if there is one part only.
unfoldable pub split2 : ℕ → Text → Option (Text × Text)
split2 sep [] = none
split2 sep (c ∷ s) = let rest = split2 sep s in if c == sep then some ([], s) else prepend c rest

abbrev pub Lacks : ℕ → Text → Type 0
Lacks sep = All (λ c. c ≢ sep)

-- The first separator of `a`, the separator and `b` is the one in the middle, if `a` has none.
pub split2_first : (sep : ℕ) (a b : Text) → Lacks sep a → split2 sep (a ++ sep ∷ b) ≡ some (a, b)
unfolding split2
split2_first sep [] b h = ground arith
split2_first sep (c ∷ a) b h = ground (arith, split2_first sep a b)

-- The part before the separator holds none.
pub split2-Lacks :
    (sep : ℕ) (s a b : Text) → split2 sep s ≡ some (a, b) → Lacks sep a × (s ≡ a ++ sep ∷ b)
unfolding split2
split2-Lacks sep [] a b h = cc
split2-Lacks sep (c ∷ s) [] b h = ground arith
split2-Lacks sep (c ∷ s) (d ∷ a) b h = ground (arith, split2-Lacks sep s a b)

tail_path : {c d : ℕ} {s t : Text} → ◌≡◌ {A = Text} (c ∷ s) (d ∷ t) → s ≡ t
tail_path h = cc

-- A text that holds a separator does not lack it.
Lacks-middle : (sep : ℕ) (b y : Text) → ¬ (Lacks sep (b ++ sep ∷ y))
Lacks-middle sep [] y h = h.0 refl
Lacks-middle sep (d ∷ b) y h = Lacks-middle sep b y h.1

-- Equal texts are cut alike at their last separators.
pub cut_last :
    (sep : ℕ) (a b x y : Text)
    → Lacks sep x
    → Lacks sep y
    → a ++ sep ∷ x ≡ b ++ sep ∷ y
    → (a ≡ b) × (x ≡ y)
cut_last sep [] [] x y hx hy e = ground arith
cut_last sep [] (d ∷ b) x y hx hy e =
    absurd (Lacks-middle sep b y (subst (Lacks sep) (tail_path e) hx))
cut_last sep (c ∷ a) [] x y hx hy e =
    absurd (Lacks-middle sep a x (subst (Lacks sep) (tail_path (sym e)) hy))
cut_last sep (c ∷ a) (d ∷ b) x y hx hy e = ground (arith, cut_last sep a b x y hx hy (tail_path e))

-- Equal texts are cut alike at their first separators.
pub cut_first :
    (sep : ℕ) (a b x y : Text)
    → Lacks sep a
    → Lacks sep b
    → a ++ sep ∷ x ≡ b ++ sep ∷ y
    → (a ≡ b) × (x ≡ y)
cut_first sep [] [] x y ha hb e = ground arith
cut_first sep [] (d ∷ b) x y ha hb e = absurd (hb.0 (cc))
cut_first sep (c ∷ a) [] x y ha hb e = absurd (ha.0 (cc))
cut_first sep (c ∷ a) (d ∷ b) x y ha hb e =
    ground (arith, cut_first sep a b x y ha.1 hb.1 (tail_path e))
