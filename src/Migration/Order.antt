-- ===== src/Migration/Order.antt =====
-- The order of the migrations: that of the names of their files.
use mathlib.Core.List.{Permᴰ}
use muninn.Prelude.{
  ◌≡◌, refl, sym, ap, ◌∙◌, true, false, List, [], ◌∷◌, if◌then◌else◌, Bool-cases, inl, inr, arith,
}
use muninn.Text.{Text}
use muninn.Exec.{Result, ok}
use muninn.Migration.{Files, text_ltb, insert_name, sort_names, load_each, load_migrations}

ltb_asym : (s t : Text) → text_ltb s t ≡ true → text_ltb t s ≡ false
ltb_asym [] [] h = cc
ltb_asym [] (d ∷ t) h = refl
ltb_asym (c ∷ s) [] h = cc
ltb_asym (c ∷ s) (d ∷ t) h = ground (arith, ltb_asym s t)

ltb_antisym : (s t : Text) → text_ltb s t ≡ false → text_ltb t s ≡ false → s ≡ t
ltb_antisym [] [] h k = refl
ltb_antisym [] (d ∷ t) h k = cc
ltb_antisym (c ∷ s) [] h k = cc
ltb_antisym (c ∷ s) (d ∷ t) h k = ground (arith, ltb_antisym s t)

ltb_trans : (n a b : Text) → text_ltb n b ≡ false → text_ltb n a ≡ true → text_ltb b a ≡ true
ltb_trans [] [] b h k = cc
ltb_trans [] (c ∷ a) [] h k = refl
ltb_trans [] (c ∷ a) (d ∷ b) h k = cc
ltb_trans (e ∷ n) [] b h k = cc
ltb_trans (e ∷ n) (c ∷ a) [] h k = refl
ltb_trans (e ∷ n) (c ∷ a) (d ∷ b) h k = ground (arith, ltb_trans n a b)

-- Two names in front of a list that stands behind both.
swap_front :
    (a b : Text) (ns : List Text)
    → (if text_ltb b a then b ∷ a ∷ ns else a ∷ b ∷ ns)
      ≡ (if text_ltb a b then a ∷ b ∷ ns else b ∷ a ∷ ns)
swap_front a b ns = elim (Bool-cases (text_ltb b a)) [
  | inl h ↦ rw (h, ltb_asym b a h) refl
  | inr h ↦ elim (Bool-cases (text_ltb a b)) [
    | inl k ↦ rw (h, k) refl
    | inr k ↦
        rw (h, k)
          (ap (λ (x : Text). x ∷ b ∷ ns) (ltb_antisym a b k h)
            ∙ ap (λ (x : Text). b ∷ x ∷ ns) (ltb_antisym b a h k))
  ]
]

insert_comm :
    (a b : Text) (ns : List Text)
    → insert_name a (insert_name b ns) ≡ insert_name b (insert_name a ns)
unfolding insert_name
insert_comm a b [] = swap_front a b []
insert_comm a b (n ∷ ns) = elim (Bool-cases (text_ltb n a)) [
  | inl h ↦ elim (Bool-cases (text_ltb n b)) [
    | inl k ↦ rw (h, k) (rw h (ap (λ (xs : List Text). n ∷ xs) (insert_comm a b ns)))
    | inr k ↦ rw (h, k) (rw (ltb_trans n a b k h, h) refl)
  ]
  | inr h ↦ elim (Bool-cases (text_ltb n b)) [
    | inl k ↦ rw (h, k) (rw (h, ltb_trans n b a h k) refl)
    | inr k ↦ rw (h, k) (rw h (swap_front a b (n ∷ ns)))
  ]
]

sort_names-perm : {xs ys : List Text} → Permᴰ xs ys → sort_names xs ≡ sort_names ys
unfolding sort_names
sort_names-perm Permᴰ.nil = refl
sort_names-perm (Permᴰ.cons e p) = λ i. insert_name (e i) (sort_names-perm p i)
sort_names-perm (Permᴰ.swap {a = a} {b = b} {l = l} e f) =
    insert_comm a b (sort_names l) ∙ λ i. insert_name (f i) (insert_name (e i) (sort_names l))
sort_names-perm (Permᴰ.trans p q) = sort_names-perm p ∙ sort_names-perm q

-- The loop reads the files only.
load_each-read_dir :
    (files : Files) (dir : Result (List Text)) (names : List Text)
    → load_each (record files { read_dir = dir }) names ≡ load_each files names
unfolding load_each
load_each-read_dir files dir [] = refl
load_each-read_dir files dir (n ∷ ns) = rw (load_each-read_dir files dir ns) refl

-- The migrations and their order are the same whatever the order in which the directory lists its
-- files.
pub load_migrations-perm :
    (files : Files) (xs ys : List Text)
    → Permᴰ xs ys
    → load_migrations (record files { read_dir = ok xs })
      ≡ load_migrations (record files { read_dir = ok ys })
unfolding load_migrations
load_migrations-perm files xs ys p =
    load_each-read_dir files _ _
    ∙ ap (load_each files) (sort_names-perm p)
    ∙ sym (load_each-read_dir files _ _)
