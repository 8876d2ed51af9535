-- ===== src/Database/Tables.antt =====
-- The rows of a table after an INSERT, an UPDATE or a DELETE.
use mathlib.Core.List.{Permᴰ}
use muninn.Prelude.{
  ◌≡◌, Bool, true, false, not, none, List, [], ◌∷◌, ◌++◌, All, All-append, Bool-cases, inl, inr,
  keep, arith, subst,
}
use muninn.Text.Equality.{text_eq_iff}
use muninn.Memory.Entries.{keep-All}
use muninn.Database.{PeerRow, update_where, delete_where, first_row, has_id}

module _ {ℓ κ} {A : Type ℓ} (P : A → Type κ) where
  pub update_where-All :
      (test : A → Bool) (f : A → A) (xs : List A)
      → ((x : A) → P x → P (f x))
      → All P xs
      → All P (update_where test f xs)
  unfolding update_where
  update_where-All test f [] keeps h = tt
  update_where-All test f (x ∷ xs) keeps (hx, hxs) = elim (Bool-cases (test x)) [
    | inl e ↦ rw e (keeps x hx, update_where-All test f xs keeps hxs)
    | inr e ↦ rw e (hx, update_where-All test f xs keeps hxs)
  ]

  pub delete_where-All : (test : A → Bool) (xs : List A) → All P xs → All P (delete_where test xs)
  unfolding delete_where
  delete_where-All test xs h = keep-All P (λ x. not (test x)) xs h

  All-perm : {xs ys : List A} → Permᴰ xs ys → All P xs → All P ys
  All-perm Permᴰ.nil h = h
  All-perm (Permᴰ.cons e p) (hx, h) = (subst P e hx, All-perm p h)
  All-perm (Permᴰ.swap e f) (hx, (hy, h)) = (subst P f hy, (subst P e hx, h))
  All-perm (Permᴰ.trans p q) h = All-perm q (All-perm p h)

-- A SELECT that finds no row: no row of the table passes.
none-keep {ℓ} :
    {A : Type ℓ} (test : A → Bool) (xs : List A)
    → first_row (keep test xs) ≡ none
    → All (λ x. test x ≡ false) xs
none-keep test [] h = tt
none-keep test (x ∷ xs) h = elim (Bool-cases (test x)) [
  | inl e ↦ absurd (found e)
  | inr e ↦ (e, none-keep test xs (ground arith))
]
  where
    found : test x ≡ true → ⊥
    found e = ground arith

pub none_selected {ℓ} :
    {A : Type ℓ} (test : A → Bool) {xs ys : List A}
    → Permᴰ xs ys
    → first_row (keep test xs) ≡ none
    → All (λ x. test x ≡ false) ys
none_selected test p h = All-perm (λ x. test x ≡ false) p (none-keep test _ h)

-- No two rows have one id, the primary key of the table.
abbrev pub IsUnique : List PeerRow → Type 0
IsUnique [] = Unit
IsUnique (row ∷ rows) = All (λ r. has_id row.id r ≡ false) rows × IsUnique rows

has_id_sym : (r s : PeerRow) → has_id r.id s ≡ false → has_id s.id r ≡ false
has_id_sym r s h = ground (arith, text_eq_iff r.id s.id, text_eq_iff s.id r.id)

pub insert-IsUnique :
    (row : PeerRow) (rows : List PeerRow)
    → All (λ r. has_id row.id r ≡ false) rows
    → IsUnique rows
    → IsUnique (rows ++ row ∷ [])
insert-IsUnique row [] h u = (tt, tt)
insert-IsUnique row (r ∷ rows) (hr, h) (ur, u) = (
  All-append (λ q. has_id r.id q ≡ false) rows _ ur (has_id_sym row r hr, tt),
  insert-IsUnique row rows h u,
)

pub update_where-IsUnique :
    (test : PeerRow → Bool) (f : PeerRow → PeerRow) (rows : List PeerRow)
    → ((r : PeerRow) → (f r).id ≡ r.id)
    → IsUnique rows
    → IsUnique (update_where test f rows)
unfolding update_where
update_where-IsUnique test f [] same u = tt
update_where-IsUnique test f (row ∷ rows) same (h, u) =
    let keeps : (r : PeerRow) → has_id row.id r ≡ false → has_id row.id (f r) ≡ false =
      λ r e. rw (same r) e in
    let others = update_where-All (λ r. has_id row.id r ≡ false) test f rows keeps h in
    let rest = update_where-IsUnique test f rows same u in
    elim (Bool-cases (test row)) [
      | inl e ↦ rw (e, same row) (others, rest)
      | inr e ↦ rw e (others, rest)
    ]

pub delete_where-IsUnique :
    (test : PeerRow → Bool) (rows : List PeerRow)
    → IsUnique rows
    → IsUnique (delete_where test rows)
unfolding delete_where
delete_where-IsUnique test [] u = tt
delete_where-IsUnique test (row ∷ rows) (h, u) =
    let others = delete_where-All (λ r. has_id row.id r ≡ false) test rows h in
    let rest = delete_where-IsUnique test rows u in
    elim (Bool-cases (test row)) [ inl e ↦ rw e rest | inr e ↦ rw e (others, rest) ]
