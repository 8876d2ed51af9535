-- ===== src/Assoc/Entries.antt =====
-- The entries of a map, read as a list: an entry is found under its key, if no key stands twice.
use muninn.Prelude.{
  ◌≡◌, ◌≢◌, [], ◌∷◌, none, some, arith, ap, Bool-cases, inl, inr, In, In-cons, here, there,
}
use muninn.Text.{Text, text_eq}
use muninn.Text.Equality.{text_eq_iff}
use muninn.Assoc.{Assoc, find, Distinct}

module _ {ℓ} {V : Type ℓ} where
  key_eq : {k j : Text} {v w : V} → ◌≡◌ {A = Text × V} (k, v) (j, w) → k ≡ j
  key_eq e = ap (λ (p : Text × V). p.0) e

  value_eq : {k j : Text} {v w : V} → ◌≡◌ {A = Text × V} (k, v) (j, w) → v ≡ w
  value_eq e = ap (λ (p : Text × V). p.1) e

  -- a key that stands in an entry is found
  find-ne-none : (k : Text) {v : V} (m : Assoc V) → In (k, v) m → find k m ≢ none
  unfolding find
  find-ne-none k [] i h = elim i [ ]
  find-ne-none k ((j, w) ∷ m) i h = elim (In-cons i) [
    | inl e ↦ ground (arith, text_eq_iff j k, key_eq e)
    | inr r ↦ ground (arith, find-ne-none k m r)
  ]

  pub find-In : (k : Text) {v : V} (m : Assoc V) → Distinct m → In (k, v) m → find k m ≡ some v
  unfolding find
  find-In k [] d i = elim i [ ]
  find-In k ((j, w) ∷ m) (fresh, d) i = elim (In-cons i) [
    | inl e ↦ ground (arith, text_eq_iff j k, key_eq e, value_eq e)
    | inr r ↦ ground (arith, text_eq_iff j k, find-In k m d r, find-ne-none k m r)
  ]

  pub In-find : (k : Text) {v : V} (m : Assoc V) → find k m ≡ some v → In (k, v) m
  unfolding find
  In-find k [] h = cc
  In-find k ((j, w) ∷ m) h = elim (Bool-cases (text_eq j k)) [
    | inl e ↦ here (ground (arith, text_eq_iff j k))
    | inr e ↦ there (In-find k m (ground arith))
  ]
