-- ===== src/Memory/Ranking.antt =====
-- `GetBestPeers` and `GetBestThickPeers` of internal/store/memory.go. `sort.Slice` sorts by an
-- insertion here: Go leaves open the order of equal scores, and so does `order`, which is any order
-- of the peers before the sort.
pub mod Best
pub mod Top
use muninn.Prelude.{
  ℕ, ◌≡◌, Bool, true, false, ◌&&◌, ◌||◌, not, List, [], ◌∷◌, if◌then◌else◌, keep, length, take, leb,
  min,
}
use muninn.Prelude.Int.{ℤ, pos, negsuc, leb_ℤ, ltb_ℤ, pos_part}
use muninn.Text.{text_eq}
use muninn.Model.{Peer, thick, very_thick}
use muninn.Outside.{Outside}
use muninn.Score.{effective_score}
use muninn.Exec.{Exec, pure, ◌>>=◌, get}
use muninn.Memory.{Memory, is_expired}
use muninn.Memory.Peers.{peers_of, is_active}

-- The comparison that `sort.Slice` is given: whether `p` goes before `q`.
abbrev pub ranks_before : Peer → Peer → Bool
ranks_before p q = ltb_ℤ (effective_score q) (effective_score p)

unfoldable pub insert : Peer → List Peer → List Peer
insert p [] = p ∷ []
insert p (q ∷ qs) = if ranks_before q p then q ∷ insert p qs else p ∷ q ∷ qs

unfoldable pub sort : List Peer → List Peer
sort [] = []
sort (p ∷ ps) = insert p (sort ps)

-- `if n > len(active) { n = len(active) }; return active[:n]`
abbrev pub first : ℤ → List Peer → List Peer
first n ps = take (min (pos_part n) (length ps)) ps

unfoldable pub get_best_peers : Outside → ℤ → Exec Memory (List Peer)
get_best_peers o n s =
    if leb_ℤ n (pos 0)
    then pure [] s
    else pure (first n (sort (keep (is_active o) (peers_of (o.order 0 s.peers))))) s

abbrev pub is_thick : Peer → Bool
is_thick p = text_eq p.peer_flag thick || text_eq p.peer_flag very_thick

abbrev pub is_active_thick : Outside → Peer → Bool
is_active_thick o p = is_active o p && is_thick p

unfoldable pub get_best_thick_peers : Outside → ℤ → Exec Memory (List Peer)
get_best_thick_peers o n s =
    if leb_ℤ n (pos 0)
    then pure [] s
    else pure (first n (sort (keep (is_active_thick o) (peers_of (o.order 0 s.peers))))) s
