-- ===== src/Memory/Directory.antt =====
-- The invariant of the two maps `peers` and `logins`: each peer stands under its own id, and the
-- list of its key holds its id, so that a search by key meets every peer.
use mathlib.Core.Path.{subst₂}
use muninn.Prelude.{
  ◌≡◌, ◌≢◌, refl, true, some, List, [], ◌∷◌, arith, In, In-cons, here, there, In-append_left,
  In-append_right, inl, inr, if◌then◌else◌, Bool-cases, sym, ap, subst, ◌∙◌, ◌⊎◌,
}
use muninn.Prelude.Int.{pos, ◌<ℤ◌}
use muninn.Text.{Text, text_eq}
use muninn.Text.Equality.{text_eq_iff, text_eq_refl}
use muninn.Model.{Peer, key}
use muninn.Assoc.{
  Assoc, find, put, remove, find-put, find-remove, Distinct, put-Distinct, remove-Distinct,
}
use muninn.Memory.Peers.{list_at, remove_id, add_login, drop_login}

pub list_at-put :
    (k j : Text) (l : List Text) (m : Assoc (List Text))
    → list_at j (put k l m) ≡ (if text_eq k j then l else list_at j m)
list_at-put k j l m = ground (arith, find-put k j l m)

pub In-remove_id : {j id : Text} (ids : List Text) → j ≢ id → In j ids → In j (remove_id ids id)
unfolding remove_id
In-remove_id [] ne m = elim m [ ]
In-remove_id {j} {id} (v ∷ ids) ne m = elim (Bool-cases (text_eq v id)) [
  | inl e ↦ elim (In-cons m) [ inl h ↦ absurd (ne (h ∙ (text_eq_iff v id).0 e)) | inr r ↦ rw e r ]
  | inr e ↦ elim (In-cons m) [
    | inl h ↦ rw e (here h)
    | inr r ↦ rw e (there (In-remove_id ids ne r))
  ]
]

-- The list of the key `k` holds the id `id`.
abbrev pub IsListed : Assoc (List Text) → Text → Text → Type 0
IsListed logins k id = In id (list_at k logins)

module _ (k id : Text) (m : Assoc (List Text)) where
  same_key : (j : Text) → text_eq k j ≡ true → k ≡ j
  same_key j = (text_eq_iff k j).0

  pub add_login_self : IsListed (add_login k id m) k id
  add_login_self = rw (list_at-put, text_eq_refl k) (In-append_right (list_at k m) (here refl))

  pub add_login_keeps : (j i : Text) → IsListed m j i → IsListed (add_login k id m) j i
  add_login_keeps j i h = elim (Bool-cases (text_eq k j)) [
    | inl e ↦ rw (list_at-put, e) (In-append_left (id ∷ []) (rw (same_key j e) h))
    | inr e ↦ rw (list_at-put, e) h
  ]

  pub drop_login_keeps : (j i : Text) → i ≢ id → IsListed m j i → IsListed (drop_login k id m) j i
  drop_login_keeps j i ne h = elim (Bool-cases (text_eq k j)) [
    | inl e ↦ rw (list_at-put, e) (In-remove_id (list_at k m) ne (rw (same_key j e) h))
    | inr e ↦ rw (list_at-put, e) h
  ]

pub record IsDirectory (peers : Assoc Peer) (logins : Assoc (List Text)) : Type 0 where
  pub distinct : Distinct peers
  pub named : (id : Text) (p : Peer) → find id peers ≡ some p → p.id ≡ id
  pub ttl : (id : Text) (p : Peer) → find id peers ≡ some p → pos 0 <ℤ p.ttl_seconds
  pub listed : (id : Text) (p : Peer) → find id peers ≡ some p → IsListed logins (key p) id

-- What `put` finds: the new value or one that was there.
pub find-put_cases :
    {V : Type 0} (k j : Text) (v w : V) (m : Assoc V)
    → find j (put k v m) ≡ some w
    → ((k ≡ j) × (v ≡ w)) ⊎ ((k ≢ j) × (find j m ≡ some w))
find-put_cases k j v w m h = elim (Bool-cases (text_eq k j)) [
  | inl e ↦ inl ((text_eq_iff k j).0 e, ground (arith, find-put k j v m))
  | inr e ↦ inr (ground (arith, text_eq_iff k j), ground (arith, find-put k j v m))
]

pub find-remove_cases :
    {V : Type 0} (k j : Text) (w : V) (m : Assoc V)
    → find j (remove k m) ≡ some w
    → (k ≢ j) × (find j m ≡ some w)
find-remove_cases k j w m h = ground (arith, find-remove k j m, text_eq_iff k j)

module _ {peers : Assoc Peer} {logins : Assoc (List Text)} (d : IsDirectory peers logins) where
  -- A peer is written whose key is listed for it; the entries of the other ids stay listed.
  pub put-IsDirectory :
      (id : Text) (p : Peer) (logins' : Assoc (List Text))
      → p.id ≡ id
      → pos 0 <ℤ p.ttl_seconds
      → IsListed logins' (key p) id
      → ((k j : Text) → j ≢ id → IsListed logins k j → IsListed logins' k j)
      → IsDirectory (put id p peers) logins'
  put-IsDirectory id p logins' own positive its keeps = record {
    distinct = put-Distinct id p peers d.distinct;
    named = λ j q h. elim (find-put_cases id j p q peers h) [
      | inl (same, new) ↦ sym (ap (λ (r : Peer). r.id) new) ∙ own ∙ same
      | inr (other, old) ↦ d.named j q old
    ];
    ttl = λ j q h. elim (find-put_cases id j p q peers h) [
      | inl (same, new) ↦ subst (λ (r : Peer). pos 0 <ℤ r.ttl_seconds) new positive
      | inr (other, old) ↦ d.ttl j q old
    ];
    listed = λ j q h. elim (find-put_cases id j p q peers h) [
      | inl (same, new) ↦ subst₂ (λ (r : Peer) (i : Text). IsListed logins' (key r) i) new same its
      | inr (other, old) ↦ keeps (key q) j (λ e. other (sym e)) (d.listed j q old)
    ];
  }

  pub remove-IsDirectory :
      (id : Text) (logins' : Assoc (List Text))
      → ((k j : Text) → j ≢ id → IsListed logins k j → IsListed logins' k j)
      → IsDirectory (remove id peers) logins'
  remove-IsDirectory id logins' keeps = record {
    distinct = remove-Distinct id peers d.distinct;
    named = λ j q h. d.named j q (find-remove_cases id j q peers h).1;
    ttl = λ j q h. d.ttl j q (find-remove_cases id j q peers h).1;
    listed = λ j q h.
        let (other, old) = find-remove_cases id j q peers h in
        keeps (key q) j (λ e. other (sym e)) (d.listed j q old);
  }
