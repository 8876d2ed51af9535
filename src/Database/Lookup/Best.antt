-- ===== src/Database/Lookup/Best.antt =====
-- `GetBestPeers` and `GetBestThickPeers` of `dbStore` return the best of the peers that they
-- choose from.
use mathlib.Core.List.{Permᴰ}
use mathlib.Core.List.Permᴰ
use muninn.Prelude.{
  ℕ, ◌≡◌, min, refl, Bool, true, not, none, ◌⊎◌, List, [], arith, All, Bool-cases, inl, inr, In,
  In-perm, In-keep, keep, length, length-take, drop, take-append-drop, ◌++◌, keep-perm, map-perm,
}
use muninn.Prelude.Int.{ℤ, pos, eqb_ℤ, leb_ℤ, pos_part}
use muninn.Model.{Peer}
use muninn.Action.{done, pure, ◌>>=◌, continue, check, get}
use muninn.Memory.{is_expired}
use muninn.Memory.Ranking.{sort, first}
use muninn.Memory.Ranking.Best.{IsAtLeast, IsRanked, sort-perm, sort-IsRanked}
use muninn.Memory.Ranking.Top.{length-perm, In-take, take-IsRanked, cut_best, cut_outranks}
use muninn.Database.{Database, PeerRow, Server, IsFairServer, statement, scan_peer, live_rows}
use muninn.Database.Peers.{is_real, look_up}
use muninn.Database.Ranking.{ranked, get_best_peers, get_best_thick_peers, is_real_thick, with_flag}
use muninn.Database.Invariant.{IsWellFormed}
use muninn.Database.Lookup.{look_up-live}

-- The `n` best of a list, as `IsBest` has them of the memory store: with those that are left out
-- they are the list in another order; they are ranked; there are `n` of them, or all if there are
-- fewer; each of them is at least as good as each that is left out; each is of the list; and what
-- is not among them is no better than any of them.
pub record IsTop (xs : List Peer) (n : ℕ) (ps : List Peer) : Type 0 where
  pub rest : List Peer
  pub split : Permᴰ (ps ++ rest) xs
  pub outranked : All (λ q. All (IsAtLeast q) rest) ps
  pub ranked : IsRanked ps
  pub count : length ps ≡ min n (length xs)
  pub chosen : (p : Peer) → In p ps → In p xs
  pub best : (p : Peer) → In p xs → In p ps ⊎ All (λ q. IsAtLeast q p) ps

first-IsTop : (n : ℤ) {cs xs : List Peer} → Permᴰ cs xs → IsTop xs (pos_part n) (first n (sort cs))
first-IsTop n {cs} {xs} p =
    let sorted = Permᴰ.trans (sort-perm cs) p in
    let k = min (pos_part n) (length (sort cs)) in
    record {
      rest = drop k (sort cs);
      split = rw (take-append-drop k (sort cs)) sorted;
      outranked = cut_outranks k (sort cs) (sort-IsRanked cs);
      ranked = take-IsRanked k (sort cs) (sort-IsRanked cs);
      count = omega (arith, length-take {0} k (sort cs), length-perm sorted);
      chosen = λ p m. In-perm sorted (In-take k (sort cs) m);
      best = λ p m. cut_best k (sort cs) (sort-IsRanked cs) (In-perm (Permᴰ.symm sorted) m);
    }

none-IsTop : (n : ℤ) (xs : List Peer) → leb_ℤ n (pos 0) ≡ true → IsTop xs (pos_part n) []
none-IsTop n xs e = record {
  rest = xs;
  split = Permᴰ.refl xs;
  outranked = tt;
  ranked = tt;
  count = ground arith;
  chosen = λ p m. elim m [ ];
  best = λ p m. inr tt;
}

module _ (w : Server) (db : Database) (n : ℤ) (fair : IsFairServer w)
    (passes : (i : ℕ) → w.fails i ≡ none) (h : IsWellFormed db) where
  -- The candidates are the live rows of the table, in another order.
  candidates-perm :
      (test : PeerRow → Bool) (f : PeerRow → Peer → Peer)
      → ((row : PeerRow) → f row (scan_peer row) ≡ scan_peer row)
      → Permᴰ
          (look_up w f 1 (keep test (w.peer_order 0 db.peers)) db)
          (live_rows w.outside.now (keep test db.peers))
  candidates-perm test f same =
      let p = fair.peer_perm 0 db.peers in
      rw
        (look_up-live w db fair passes h f 1 (keep test (w.peer_order 0 db.peers)) same
          (λ row m. In-perm p (In-keep test (w.peer_order 0 db.peers) m).0))
        (keep-perm (λ p. not (is_expired p w.outside.now)) (map-perm scan_peer (keep-perm test p)))

  -- On well-formed tables GetBestPeers, where no statement fails and every SELECT finds each row
  -- once, returns the `n` best of the rows that are no fakes and have not expired, each once, or
  -- all of them if there are fewer, in falling order of effective score: each is at least as good
  -- as every such row that is left out. For an `n` of zero or less it returns none.
  pub get_best_peers-IsTop :
      (ps : List Peer) × (get_best_peers w n db ≡ (done ps, db))
      × IsTop
          (live_rows w.outside.now (keep (λ row. eqb_ℤ row.is_fake (pos 0)) db.peers))
          (pos_part n)
          ps
  unfolding get_best_peers ranked statement pure ◌>>=◌ continue check get
  get_best_peers-IsTop = elim (Bool-cases (leb_ℤ n (pos 0))) [
    | inl e ↦ ([], rw e refl, none-IsTop n _ e)
    | inr e ↦ (
      first n (sort (look_up w with_flag 1 (keep is_real (w.peer_order 0 db.peers)) db)),
      rw (e, passes 0) refl,
      first-IsTop n (candidates-perm is_real with_flag (λ row. refl)),
    )
  ]

  -- The same of GetBestThickPeers and the rows that have the flag `thick` or `very_thick`, are no
  -- fakes and have not expired.
  pub get_best_thick_peers-IsTop :
      (ps : List Peer) × (get_best_thick_peers w n db ≡ (done ps, db))
      × IsTop (live_rows w.outside.now (keep is_real_thick db.peers)) (pos_part n) ps
  unfolding get_best_thick_peers ranked statement pure ◌>>=◌ continue check get
  get_best_thick_peers-IsTop = elim (Bool-cases (leb_ℤ n (pos 0))) [
    | inl e ↦ ([], rw e refl, none-IsTop n _ e)
    | inr e ↦ (
      first n (sort (look_up w (λ row p. p) 1 (keep is_real_thick (w.peer_order 0 db.peers)) db)),
      rw (e, passes 0) refl,
      first-IsTop n (candidates-perm is_real_thick (λ row p. p) (λ row. refl)),
    )
  ]
