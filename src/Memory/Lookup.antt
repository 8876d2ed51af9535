-- ===== src/Memory/Lookup.antt =====
-- What `peerByKey` returns.
use mathlib.Core.List.Permᴰ
use muninn.Prelude.{
  ℕ, ◌≡◌, Bool, true, false, Option, none, some, List, [], ◌∷◌, arith, In, In-cons, here, there,
  In-perm, Bool-cases, inl, inr, ap, ◌∙◌,
}
use muninn.Text.{Text}
use muninn.Text.Equality.{text_eq_iff}
use muninn.Model.{Peer, key}
use muninn.Outside.{Outside, IsFair}
use muninn.Assoc.{Assoc, find, Distinct}
use muninn.Assoc.Entries.{find-In, In-find}
use muninn.Memory.{Memory, peer_by_key, find_first, holds_key, is_expired, second}

module _ {ℓ} {A : Type ℓ} (test : A → Bool) where
  pub find_first-In :
      (xs : List A) {a : A} → find_first test xs ≡ some a → In a xs × (test a ≡ true)
  unfolding find_first
  find_first-In [] h = cc
  find_first-In (x ∷ xs) h = elim (Bool-cases (test x)) [
    | inl e ↦ (here (ground arith), ground arith)
    | inr e ↦ let rest = find_first-In xs (rw e at h) in (there rest.0, rest.1)
  ]

module _ {ℓ} {A : Type ℓ} (test : A → Bool) where
  pub find_first_succeeds :
      (xs : List A) {a : A} → In a xs → test a ≡ true → (b : A) × (find_first test xs ≡ some b)
  unfolding find_first
  find_first_succeeds [] m h = elim m [ ]
  find_first_succeeds (x ∷ xs) m h = elim (Bool-cases (test x)) [
    | inl e ↦ (x, rw e)
    | inr e ↦ elim (In-cons m) [
      | inl same ↦ (x, ground (arith, ap test same))
      | inr later ↦ let rest = find_first_succeeds xs later h in (rest.0, rw e rest.1)
    ]
  ]

-- No two entries of a map share an id with the peer in it.
abbrev pub IsNamed : Assoc Peer → Type 0
IsNamed m = (id : Text) (p : Peer) → find id m ≡ some p → p.id ≡ id

second-some :
    (r : Option (Text × Peer)) {p : Peer} → second r ≡ some p → (id : Text) × (r ≡ some (id, p))
second-some none h = cc
second-some (some (id, q)) h = (id, ground arith)

holds_key_parts :
    (o : Outside) (k id : Text) (p : Peer)
    → holds_key o k (id, p) ≡ true
    → (key p ≡ k) × (is_expired p o.now ≡ false)
holds_key_parts o k id p h = ground (arith, text_eq_iff (key p) k)

parts_hold_key :
    (o : Outside) (k id : Text) (p : Peer)
    → key p ≡ k
    → is_expired p o.now ≡ false
    → holds_key o k (id, p) ≡ true
parts_hold_key o k id p h e = ground (arith, text_eq_iff (key p) k)

module _ (o : Outside) (i : ℕ) (k : Text) (s : Memory) where
  entry_of_peer_by_key :
      {p : Peer}
      → peer_by_key o i k s ≡ some p
      → (id : Text) × In (id, p) (o.order i s.peers) × (holds_key o k (id, p) ≡ true)
  unfolding peer_by_key
  entry_of_peer_by_key {p} h =
      let (id, e) = second-some (find_first (holds_key o k) (o.order i s.peers)) h in
      let (member, holds) = find_first-In (holds_key o k) (o.order i s.peers) e in
      (id, member, holds)

  -- The peer stands in the map under its own id, has the key, and has not expired.
  pub peer_by_key_sound :
      {p : Peer}
      → IsFair o
      → Distinct s.peers
      → IsNamed s.peers
      → peer_by_key o i k s ≡ some p
      → (find p.id s.peers ≡ some p) × (key p ≡ k) × (is_expired p o.now ≡ false)
  peer_by_key_sound {p} fair d named h =
      let (id, member, holds) = entry_of_peer_by_key h in
      let found = find-In id s.peers d (In-perm (fair.order_perm i s.peers) member) in
      let (same_key, alive) = holds_key_parts o k id p holds in
      (ap (λ (j : Text). find j s.peers) (named id p found) ∙ found, same_key, alive)

  -- A live peer with the key makes the search succeed.
  pub peer_by_key_complete :
      (id : Text) {p : Peer}
      → IsFair o
      → find id s.peers ≡ some p
      → key p ≡ k
      → is_expired p o.now ≡ false
      → (q : Peer) × (peer_by_key o i k s ≡ some q)
  unfolding peer_by_key
  peer_by_key_complete id {p} fair found same alive =
      let member = In-perm (Permᴰ.symm (fair.order_perm i s.peers)) (In-find id s.peers found) in
      let (entry, e) =
        find_first_succeeds (holds_key o k) (o.order i s.peers) member
          (parts_hold_key o k id p same alive) in
      (entry.1, ap second e)
