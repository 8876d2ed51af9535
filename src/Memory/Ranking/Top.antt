-- ===== src/Memory/Ranking/Top.antt =====
-- `GetBestPeers` and `GetBestThickPeers` return the best of the peers that they choose from.
use mathlib.Core.List.{Permᴰ}
use mathlib.Core.List.Permᴰ
use muninn.Prelude.{
  ℕ, suc, zero, some, ◌≡◌, min, refl, Bool, true, List, [], ◌∷◌, arith, All, In, In-cons, In-keep,
  keep-In, In-perm, here, there, inl, inr, ◌⊎◌, Bool-cases, keep, keep-perm, length, take, drop,
  take-append-drop, length-take, sym, ◌++◌, ◌&&◌, not, ap, ◌∙◌, subst,
}
use muninn.Prelude.Int.{ℤ, pos, leb_ℤ, pos_part}
use muninn.Text.{Text}
use muninn.Model.{Peer}
use muninn.Outside.{Outside, IsFair}
use muninn.Assoc.{find}
use muninn.Assoc.Entries.{find-In, In-find}
use muninn.Exec.{ok, pure}
use muninn.Memory.{Memory, is_expired}
use muninn.Memory.Invariant.{IsWell}
use muninn.Memory.Peers.{peers_of, is_active}
use muninn.Memory.Ranking.{sort, first, get_best_peers, get_best_thick_peers, is_active_thick}
use muninn.Memory.Ranking.Best.{IsAtLeast, IsRanked, sort-perm, sort-IsRanked}

peers_of-perm : {xs ys : List (Text × Peer)} → Permᴰ xs ys → Permᴰ (peers_of xs) (peers_of ys)
peers_of-perm Permᴰ.nil = Permᴰ.nil
peers_of-perm (Permᴰ.cons e p) = Permᴰ.cons (ap (λ (x : Text × Peer). x.1) e) (peers_of-perm p)
peers_of-perm (Permᴰ.swap e f) =
    Permᴰ.swap (ap (λ (x : Text × Peer). x.1) e) (ap (λ (x : Text × Peer). x.1) f)
peers_of-perm (Permᴰ.trans p q) = Permᴰ.trans (peers_of-perm p) (peers_of-perm q)

In-peers_of :
    {p : Peer} (xs : List (Text × Peer)) → In p (peers_of xs) → (id : Text) × In (id, p) xs
In-peers_of [] m = elim m [ ]
In-peers_of ((id, q) ∷ xs) m = elim (In-cons m) [
  | inl e ↦ (id, here (λ i. (id, e i)))
  | inr r ↦ let (j, found) = In-peers_of xs r in (j, there found)
]

peers_of-In : {id : Text} {p : Peer} {xs : List (Text × Peer)} → In (id, p) xs → In p (peers_of xs)
peers_of-In (here e) = here (ap (λ (x : Text × Peer). x.1) e)
peers_of-In (there m) = there (peers_of-In m)

pub length-perm : {xs ys : List Peer} → Permᴰ xs ys → length xs ≡ length ys
length-perm Permᴰ.nil = refl
length-perm (Permᴰ.cons e p) = ap suc (length-perm p)
length-perm (Permᴰ.swap e f) = refl
length-perm (Permᴰ.trans p q) = length-perm p ∙ length-perm q

pub In-take : {p : Peer} (n : ℕ) (ps : List Peer) → In p (take n ps) → In p ps
In-take zero ps m = elim m [ ]
In-take (suc n) [] m = elim m [ ]
In-take (suc n) (q ∷ ps) m = elim (In-cons m) [ inl e ↦ here e | inr r ↦ there (In-take n ps r) ]

All-take : (P : Peer → Type 0) (n : ℕ) (ps : List Peer) → All P ps → All P (take n ps)
All-take P zero ps h = tt
All-take P (suc n) [] h = tt
All-take P (suc n) (p ∷ ps) (hp, hps) = (hp, All-take P n ps hps)

All-drop : (P : Peer → Type 0) (n : ℕ) (ps : List Peer) → All P ps → All P (drop n ps)
All-drop P zero ps h = h
All-drop P (suc n) [] h = tt
All-drop P (suc n) (p ∷ ps) (hp, hps) = All-drop P n ps hps

pub take-IsRanked : (n : ℕ) (ps : List Peer) → IsRanked ps → IsRanked (take n ps)
take-IsRanked zero ps h = tt
take-IsRanked (suc n) [] h = tt
take-IsRanked (suc n) (p ∷ ps) (hp, hps) = (All-take (IsAtLeast p) n ps hp, take-IsRanked n ps hps)

All-In : (P : Peer → Type 0) {p : Peer} (ps : List Peer) → All P ps → In p ps → P p
All-In P [] h m = elim m [ ]
All-In P (q ∷ ps) (hq, hps) m = elim (In-cons m) [
  | inl e ↦ subst P (sym e) hq
  | inr r ↦ All-In P ps hps r
]

-- of a ranked list, what the cut leaves out is no better than what it keeps
pub cut_best :
    {p : Peer} (n : ℕ) (ps : List Peer)
    → IsRanked ps
    → In p ps
    → In p (take n ps) ⊎ All (λ q. IsAtLeast q p) (take n ps)
cut_best zero ps h m = inr tt
cut_best (suc n) [] h m = elim m [ ]
cut_best (suc n) (q ∷ ps) (hq, hps) m = elim (In-cons m) [
  | inl e ↦ inl (here e)
  | inr r ↦ elim (cut_best n ps hps r) [
    | inl kept ↦ inl (there kept)
    | inr better ↦ inr (All-In (IsAtLeast q) ps hq r, better)
  ]
]

-- of a ranked list, each that the cut keeps is at least as good as each that it leaves out
pub cut_outranks :
    (n : ℕ) (ps : List Peer) → IsRanked ps → All (λ q. All (IsAtLeast q) (drop n ps)) (take n ps)
cut_outranks zero ps h = tt
cut_outranks (suc n) [] h = tt
cut_outranks (suc n) (q ∷ ps) (hq, hps) = (All-drop (IsAtLeast q) n ps hq, cut_outranks n ps hps)

-- The `n` best of the stored peers that pass a test: with the peers that are left out they are the
-- stored peers that pass it, each as often as it is stored; they are ranked; there are `n` of them,
-- or all if there are fewer; each of them is at least as good as each that is left out; each is a
-- stored peer that passes the test; and any such peer that is not among them is no better than any
-- of them.
pub record IsBest (s : Memory) (test : Peer → Bool) (n : ℕ) (ps : List Peer) : Type 0 where
  pub rest : List Peer
  pub split : Permᴰ (ps ++ rest) (keep test (peers_of s.peers))
  pub outranked : All (λ q. All (IsAtLeast q) rest) ps
  pub ranked : IsRanked ps
  pub count : length ps ≡ min n (length (keep test (peers_of s.peers)))
  pub chosen : (p : Peer) → In p ps → (test p ≡ true) × ((id : Text) × (find id s.peers ≡ some p))
  pub best :
      (id : Text) (p : Peer)
      → find id s.peers ≡ some p
      → test p ≡ true
      → In p ps ⊎ All (λ q. IsAtLeast q p) ps

module _ (o : Outside) (s : Memory) (fair : IsFair o) (h : IsWell s) (test : Peer → Bool) where
  candidates : List Peer
  candidates = keep test (peers_of (o.order 0 s.peers))

  top-IsBest : (n : ℤ) → IsBest s test (pos_part n) (first n (sort candidates))
  unfolding candidates
  top-IsBest n =
      let same = fair.order_perm 0 s.peers in
      let sorted = sort-perm candidates in
      let k = min (pos_part n) (length (sort candidates)) in
      record {
        rest = drop k (sort candidates);
        split =
            rw (take-append-drop k (sort candidates))
              (Permᴰ.trans sorted (keep-perm test (peers_of-perm same)));
        outranked = cut_outranks k (sort candidates) (sort-IsRanked candidates);
        ranked = take-IsRanked k (sort candidates) (sort-IsRanked candidates);
        count = omega (
          arith,
          length-take {0} k (sort candidates),
          length-perm sorted,
          length-perm (keep-perm test (peers_of-perm same)),
        );
        chosen = λ p m.
            let kept =
              In-keep test (peers_of (o.order 0 s.peers))
                (In-perm sorted (In-take k (sort candidates) m)) in
            let (id, entry) = In-peers_of (o.order 0 s.peers) kept.0 in
            (kept.1, (id, find-In id s.peers h.directory.distinct (In-perm same entry)));
        best = λ id p found passes. cut_best k (sort candidates) (sort-IsRanked candidates) (
            In-perm (Permᴰ.symm sorted) (
              keep-In test (peers_of-In (In-perm (Permᴰ.symm same) (In-find id s.peers found)))
                passes));
      }

none_asked :
    (s : Memory) (test : Peer → Bool) (n : ℤ)
    → leb_ℤ n (pos 0) ≡ true
    → IsBest s test (pos_part n) []
none_asked s test n e = record {
  rest = keep test (peers_of s.peers);
  split = Permᴰ.refl _;
  outranked = tt;
  ranked = tt;
  count = ground arith;
  chosen = λ p m. elim m [ ];
  best = λ id p found passes. inr tt;
}

module _ (o : Outside) (s : Memory) (n : ℤ) (fair : IsFair o) (h : IsWell s) where
  -- In a store that calls have built, `GetBestPeers` returns the `n` best of the stored peers that
  -- have not expired and are no fakes, each once, or all of them if there are fewer, in falling
  -- order of effective score: each is at least as good as every such peer that is left out. For an
  -- `n` of zero or less it returns none.
  pub get_best_peers-IsBest :
      (ps : List Peer) × ((get_best_peers o n s).0 ≡ ok ps)
      × IsBest s (λ p. not (is_expired p o.now) && not p.fake) (pos_part n) ps
  unfolding get_best_peers pure
  get_best_peers-IsBest = elim (Bool-cases (leb_ℤ n (pos 0))) [
    | inl e ↦ ([], rw e refl, none_asked s (is_active o) n e)
    | inr e ↦ (
      first n (sort (keep (is_active o) (peers_of (o.order 0 s.peers)))),
      rw e refl,
      unfold candidates in top-IsBest o s fair h (is_active o) n,
    )
  ]

  -- In a store that calls have built, `GetBestThickPeers` returns the `n` best of the peers that
  -- have not expired, are no fakes and have the flag `thick` or `very_thick`, and none for an `n`
  -- of zero or less.
  pub get_best_thick_peers-IsBest :
      (ps : List Peer) × ((get_best_thick_peers o n s).0 ≡ ok ps)
      × IsBest s (is_active_thick o) (pos_part n) ps
  unfolding get_best_thick_peers pure
  get_best_thick_peers-IsBest = elim (Bool-cases (leb_ℤ n (pos 0))) [
    | inl e ↦ ([], rw e refl, none_asked s (is_active_thick o) n e)
    | inr e ↦ (
      first n (sort (keep (is_active_thick o) (peers_of (o.order 0 s.peers)))),
      rw e refl,
      unfold candidates in top-IsBest o s fair h (is_active_thick o) n,
    )
  ]
