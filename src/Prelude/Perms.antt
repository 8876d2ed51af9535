-- ===== src/Prelude/Perms.antt =====
-- Lists with the same elements, in another order.
use mathlib.Core.Path.{◌≡◌, refl, ap}
use mathlib.Core.Bool.{Bool}
use mathlib.Core.Logic.{inl, inr}
use mathlib.Core.List.{List, ◌∷◌, map, Permᴰ}
use mathlib.Core.List.Permᴰ
use muninn.Prelude.Lists.{keep}
use muninn.Prelude.Tests.{Bool-cases}

module _ {ℓ κ} {A : Type ℓ} {B : Type κ} (f : A → B) where
  pub map-perm : {xs ys : List A} → Permᴰ xs ys → Permᴰ (map f xs) (map f ys)
  map-perm Permᴰ.nil = Permᴰ.nil
  map-perm (Permᴰ.cons e p) = Permᴰ.cons (ap f e) (map-perm p)
  map-perm (Permᴰ.swap e g) = Permᴰ.swap (ap f e) (ap f g)
  map-perm (Permᴰ.trans p q) = Permᴰ.trans (map-perm p) (map-perm q)

module _ {ℓ} {A : Type ℓ} (test : A → Bool) where
  keep_one :
      {a b : A} (xs ys : List A)
      → a ≡ b
      → Permᴰ (keep test xs) (keep test ys)
      → Permᴰ (keep test (a ∷ xs)) (keep test (b ∷ ys))
  keep_one {a} {b} xs ys e p = elim (Bool-cases (test b)) [
    | inl h ↦ rw (ap test e, h) (Permᴰ.cons e p)
    | inr h ↦ rw (ap test e, h) p
  ]

  keep_two : (a b : A) (xs : List A) → Permᴰ (keep test (a ∷ b ∷ xs)) (keep test (b ∷ a ∷ xs))
  keep_two a b xs = elim (Bool-cases (test a)) [
    | inl h ↦ elim (Bool-cases (test b)) [
      | inl k ↦ rw (h, k) (Permᴰ.swap refl refl)
      | inr k ↦ rw (h, k) (Permᴰ.refl _)
    ]
    | inr h ↦ rw h (Permᴰ.refl _)
  ]

  pub keep-perm : {xs ys : List A} → Permᴰ xs ys → Permᴰ (keep test xs) (keep test ys)
  keep-perm Permᴰ.nil = Permᴰ.nil
  keep-perm (Permᴰ.cons {l₁ = xs} {l₂ = ys} e p) = keep_one xs ys e (keep-perm p)
  keep-perm (Permᴰ.swap {a = a} {b = b} {a' = c} {b' = d} {l = l} e g) =
      Permᴰ.trans (keep_two a b l)
        (keep_one (a ∷ l) (d ∷ l) g (keep_one l l e (Permᴰ.refl (keep test l))))
  keep-perm (Permᴰ.trans p q) = Permᴰ.trans (keep-perm p) (keep-perm q)
