-- ===== src/Text/Trim.antt =====
-- `strings.TrimSpace`: what it leaves has no space at either end, and trimming again changes
-- nothing.
use muninn.Prelude.{◌≡◌, refl, false, [], ◌∷◌, arith}
use muninn.Text.{Text, is_space, trim_left, trim_right, trim_space}

-- the first character, if there is one, is no space
abbrev StartsSolid : Text → Type 0
StartsSolid [] = Unit
StartsSolid (c ∷ s) = is_space c ≡ false

trim_left-StartsSolid : (s : Text) → StartsSolid (trim_left s)
unfolding trim_left
trim_left-StartsSolid [] = tt
trim_left-StartsSolid (c ∷ s) = ground (arith, trim_left-StartsSolid s)

trim_right-StartsSolid : (s : Text) → StartsSolid s → StartsSolid (trim_right s)
unfolding trim_right
trim_right-StartsSolid [] h = tt
trim_right-StartsSolid (c ∷ s) h = ground arith

trim_left_solid : (s : Text) → StartsSolid s → trim_left s ≡ s
unfolding trim_left
trim_left_solid [] h = refl
trim_left_solid (c ∷ s) h = ground arith

trim_right_idem : (s : Text) → trim_right (trim_right s) ≡ trim_right s
unfolding trim_right
trim_right_idem [] = refl
trim_right_idem (c ∷ s) = ground (arith, trim_right_idem s)

pub trim_space_idem : (s : Text) → trim_space (trim_space s) ≡ trim_space s
unfolding trim_space
trim_space_idem s =
    rw (trim_left_solid _ (trim_right-StartsSolid (trim_left s) (trim_left-StartsSolid s)))
      (trim_right_idem (trim_left s))
