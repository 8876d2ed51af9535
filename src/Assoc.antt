-- ===== src/Assoc.antt =====
-- A Go map with string keys, as an association list in which a key stands once.
pub mod Entries
use muninn.Prelude.{
  ℕ, ◌≡◌, refl, Bool, true, false, List, [], ◌∷◌, Option, none, some, arith, if◌then◌else◌,
  Bool-cases, inl, inr, ◌⊎◌,
}
use muninn.Text.{Text, text_eq}
use muninn.Text.Equality.{text_eq_iff, text_eq_refl}

abbrev pub Assoc {ℓ} : Type ℓ → Type ℓ
Assoc V = List (Text × V)

module _ {ℓ} {V : Type ℓ} where
  unfoldable pub find : Text → Assoc V → Option V
  find k [] = none
  find k ((j, v) ∷ m) = if text_eq j k then some v else find k m

  -- `m[k] = v`
  unfoldable pub put : Text → V → Assoc V → Assoc V
  put k v [] = (k, v) ∷ []
  put k v ((j, w) ∷ m) = if text_eq j k then (k, v) ∷ m else (j, w) ∷ put k v m

  -- `delete(m, k)`
  unfoldable pub remove : Text → Assoc V → Assoc V
  remove k [] = []
  remove k ((j, v) ∷ m) = let rest = remove k m in if text_eq j k then rest else (j, v) ∷ rest

  pub find-put :
      (k j : Text) (v : V) (m : Assoc V)
      → find j (put k v m) ≡ (if text_eq k j then some v else find j m)
  unfolding find put
  find-put k j v [] = refl
  find-put k j v ((i, w) ∷ m) =
      ground (arith, text_eq_iff k j, text_eq_iff i k, text_eq_iff i j, find-put k j v m)

  pub find-remove :
      (k j : Text) (m : Assoc V) → find j (remove k m) ≡ (if text_eq k j then none else find j m)
  unfolding find remove
  find-remove k j [] = ground arith
  find-remove k j ((i, w) ∷ m) =
      ground (arith, text_eq_iff k j, text_eq_iff i k, text_eq_iff i j, find-remove k j m)

  -- No key stands twice.
  abbrev pub Distinct : Assoc V → Type ℓ
  Distinct [] = Unit
  Distinct ((k, v) ∷ m) = (find k m ≡ none) × Distinct m

  pub put-Distinct : (k : Text) (v : V) (m : Assoc V) → Distinct m → Distinct (put k v m)
  unfolding find put
  put-Distinct k v [] h = (refl, tt)
  put-Distinct k v ((j, w) ∷ m) (hj, hm) =
      ground (arith, text_eq_iff j k, text_eq_iff k j, put-Distinct k v m hm, find-put k j v m)

  pub remove-Distinct : (k : Text) (m : Assoc V) → Distinct m → Distinct (remove k m)
  unfolding find remove
  remove-Distinct k [] h = tt
  remove-Distinct k ((j, w) ∷ m) (hj, hm) =
      ground (arith, text_eq_iff j k, remove-Distinct k m hm, find-remove k j m)
