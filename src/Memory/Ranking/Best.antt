-- ===== src/Memory/Ranking/Best.antt =====
-- `GetBestPeers` returns the best of the active peers, in falling order of effective score.
use mathlib.Core.List.{Permᴰ}
use mathlib.Core.List.Permᴰ
use muninn.Prelude.{◌≡◌, refl, true, false, List, [], ◌∷◌, arith, All, inl, inr, Bool-cases}
use muninn.Prelude.Int.{◌≤ℤ◌}
use muninn.Model.{Peer}
use muninn.Score.{effective_score}
use muninn.Memory.Ranking.{insert, sort, ranks_before}

-- `p` is at least as good as `q`.
abbrev pub IsAtLeast : Peer → Peer → Type 0
IsAtLeast p q = effective_score q ≤ℤ effective_score p

-- Each peer is at least as good as every later one.
abbrev pub IsRanked : List Peer → Type 0
IsRanked [] = Unit
IsRanked (p ∷ ps) = All (IsAtLeast p) ps × IsRanked ps

insert-perm : (p : Peer) (ps : List Peer) → Permᴰ (insert p ps) (p ∷ ps)
unfolding insert
insert-perm p [] = Permᴰ.refl (p ∷ [])
insert-perm p (q ∷ qs) = elim (Bool-cases (ranks_before q p)) [
  | inl e ↦ rw e (Permᴰ.trans (Permᴰ.cons refl (insert-perm p qs)) (Permᴰ.swap refl refl))
  | inr e ↦ rw e (Permᴰ.refl (p ∷ q ∷ qs))
]

pub sort-perm : (ps : List Peer) → Permᴰ (sort ps) ps
unfolding sort
sort-perm [] = Permᴰ.nil
sort-perm (p ∷ ps) = Permᴰ.trans (insert-perm p (sort ps)) (Permᴰ.cons refl (sort-perm ps))

All-insert : (P : Peer → Type 0) (p : Peer) (ps : List Peer) → P p → All P ps → All P (insert p ps)
unfolding insert
All-insert P p [] h _ = (h, tt)
All-insert P p (q ∷ qs) h (hq, hqs) = elim (Bool-cases (ranks_before q p)) [
  | inl e ↦ rw e (hq, All-insert P p qs h hqs)
  | inr e ↦ rw e (h, (hq, hqs))
]

IsAtLeast-trans :
    (p q : Peer) (qs : List Peer) → IsAtLeast p q → All (IsAtLeast q) qs → All (IsAtLeast p) qs
IsAtLeast-trans p q [] h _ = tt
IsAtLeast-trans p q (r ∷ qs) h (hr, hqs) = (omega arith, IsAtLeast-trans p q qs h hqs)

insert-IsRanked : (p : Peer) (ps : List Peer) → IsRanked ps → IsRanked (insert p ps)
unfolding insert
insert-IsRanked p [] h = (tt, tt)
insert-IsRanked p (q ∷ qs) (hq, hqs) = elim (Bool-cases (ranks_before q p)) [
  | inl e ↦ rw e (All-insert (IsAtLeast q) p qs (before e) hq, insert-IsRanked p qs hqs)
  | inr e ↦ rw e ((behind e, IsAtLeast-trans p q qs (behind e) hq), (hq, hqs))
]
  where
    before : ranks_before q p ≡ true → IsAtLeast q p
    before e = ground arith

    behind : ranks_before q p ≡ false → IsAtLeast p q
    behind e = ground arith

pub sort-IsRanked : (ps : List Peer) → IsRanked (sort ps)
unfolding sort
sort-IsRanked [] = tt
sort-IsRanked (p ∷ ps) = insert-IsRanked p (sort ps) (sort-IsRanked ps)
