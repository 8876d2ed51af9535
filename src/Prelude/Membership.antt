-- ===== src/Prelude/Membership.antt =====
-- Membership as a family that can be matched, and what a permutation does to it.
use mathlib.Core.Path.{◌≡◌, refl, sym, ap, ◌∙◌}
use mathlib.Core.Bool.{Bool, true, false}
use mathlib.Core.List.{List, [], ◌∷◌, ◌++◌, Permᴰ}
use mathlib.Core.Logic.{◌⊎◌, inl, inr}
use muninn.Prelude.Tests.{if◌then◌else◌}
use muninn.Prelude.Lists.{keep}

pub data In {ℓ} {A : Type ℓ} (a : A) : List A → Type ℓ where
  here : {x : A} {xs : List A} → a ≡ x → In a (x ∷ xs)
  there : {x : A} {xs : List A} → In a xs → In a (x ∷ xs)

module _ {ℓ} {A : Type ℓ} where
  pub In-perm : {a : A} {xs ys : List A} → Permᴰ xs ys → In a xs → In a ys
  In-perm Permᴰ.nil m = elim m [ ]
  In-perm (Permᴰ.cons e p) (here h) = here (h ∙ e)
  In-perm (Permᴰ.cons e p) (there m) = there (In-perm p m)
  In-perm (Permᴰ.swap e f) (here h) = there (here (h ∙ e))
  In-perm (Permᴰ.swap e f) (there (here h)) = here (h ∙ f)
  In-perm (Permᴰ.swap e f) (there (there m)) = there (there m)
  In-perm (Permᴰ.trans p q) m = In-perm q (In-perm p m)

  pub In-append_left : {a : A} {xs : List A} (ys : List A) → In a xs → In a (xs ++ ys)
  In-append_left ys (here e) = here e
  In-append_left ys (there m) = there (In-append_left ys m)

  pub In-append_right : {a : A} (xs : List A) {ys : List A} → In a ys → In a (xs ++ ys)
  In-append_right [] m = m
  In-append_right (x ∷ xs) m = there (In-append_right xs m)

  pub In-append : {a : A} (xs : List A) {ys : List A} → In a (xs ++ ys) → In a xs ⊎ In a ys
  In-append [] m = inr m
  In-append (x ∷ xs) (here e) = inl (here e)
  In-append (x ∷ xs) (there m) = elim (In-append xs m) [ inl l ↦ inl (there l) | inr r ↦ inr r ]

  pub In-singleton : {a x : A} → In a (x ∷ []) → a ≡ x
  In-singleton (here e) = e
  In-singleton (there m) = elim m [ ]

module _ {ℓ} {A : Type ℓ} where
  pub In-cons : {a x : A} {xs : List A} → In a (x ∷ xs) → (a ≡ x) ⊎ In a xs
  In-cons (here e) = inl e
  In-cons (there m) = inr m

module _ {ℓ} {A : Type ℓ} (test : A → Bool) where
  In-if :
      {a x : A} (b : Bool) {xs : List A}
      → In a (if b then x ∷ xs else xs)
      → ((a ≡ x) × (b ≡ true)) ⊎ In a xs
  In-if true (here e) = inl (e, refl)
  In-if true (there m) = inr m
  In-if false m = inr m

  -- What a filter keeps was in the list and passes the test, and the other way round.
  pub In-keep : {a : A} (xs : List A) → In a (keep test xs) → In a xs × (test a ≡ true)
  In-keep [] m = elim m [ ]
  In-keep (x ∷ xs) m = elim (In-if (test x) m) [
    | inl (e, h) ↦ (here e, ap test e ∙ h)
    | inr r ↦ (there (In-keep xs r).0, (In-keep xs r).1)
  ]

  kept : {a x : A} (b : Bool) (xs : List A) → a ≡ x → b ≡ true → In a (if b then x ∷ xs else xs)
  kept true xs e h = here e
  kept false xs e h = cc

  passed : {a : A} (x : A) (b : Bool) {xs : List A} → In a xs → In a (if b then x ∷ xs else xs)
  passed x true m = there m
  passed x false m = m

  pub keep-In : {a : A} {xs : List A} → In a xs → test a ≡ true → In a (keep test xs)
  keep-In (here {x} e) h = kept (test x) _ e (sym (ap test e) ∙ h)
  keep-In (there {x} m) h = passed x (test x) (keep-In m h)
