-- ===== src/Database/Outcome/Ranking.antt =====
-- The outcomes of the two rankings: no peers for an n of zero or less, an error, or the first of
-- the sorted candidates.
use muninn.Prelude.{◌≡◌, Bool, true, false, List, [], keep, Bool-cases, inl, inr, String}
use muninn.Prelude.Int.{ℤ, pos, leb_ℤ}
use muninn.Model.{Peer}
use muninn.Score.{Error}
use muninn.Memory.Ranking.{sort, first}
use muninn.Action.{Reply, done, failed, pure}
use muninn.Action.Rules.{after_get, after_pure}
use muninn.Database.{Database, PeerRow, Server}
use muninn.Database.Outcome.{after_statement}
use muninn.Database.Peers.{look_up, is_real}
use muninn.Database.Ranking.{with_flag, ranked, get_best_peers, is_real_thick, get_best_thick_peers}

module _ {ℓ} (w : Server) (n : ℤ) (db : Database) (Q : Reply (List Peer) × Database → Type ℓ) where
  after_ranked :
      (context : String) (test : PeerRow → Bool) (f : PeerRow → Peer → Peer)
      → ((e : Error) → Q (failed e, db))
      → Q (done (first n (sort (look_up w f 1 (keep test (w.peer_order 0 db.peers)) db))), db)
      → Q (ranked w context test f n db)
  unfolding ranked
  after_ranked context test f fail go =
      after_statement Q w 0 _ _ db fail (after_get Q _ db (after_pure Q _ db go))

  pub get_best_peers_outcome :
      (leb_ℤ n (pos 0) ≡ true → Q (done [], db))
      → ((e : Error) → Q (failed e, db))
      → (leb_ℤ n (pos 0) ≡ false
          → Q (
            done (
                first n (sort (look_up w with_flag 1 (keep is_real (w.peer_order 0 db.peers)) db))),
            db,
          ))
      → Q (get_best_peers w n db)
  unfolding get_best_peers pure
  get_best_peers_outcome zero fail go = elim (Bool-cases (leb_ℤ n (pos 0))) [
    | inl e ↦ rw e (zero e)
    | inr e ↦ rw e (after_ranked _ is_real with_flag fail (go e))
  ]

  pub get_best_thick_peers_outcome :
      (leb_ℤ n (pos 0) ≡ true → Q (done [], db))
      → ((e : Error) → Q (failed e, db))
      → (leb_ℤ n (pos 0) ≡ false
          → Q (
            done (
                first n (
                  sort
                    (look_up w (λ row p. p) 1 (keep is_real_thick (w.peer_order 0 db.peers)) db))),
            db,
          ))
      → Q (get_best_thick_peers w n db)
  unfolding get_best_thick_peers pure
  get_best_thick_peers_outcome zero fail go = elim (Bool-cases (leb_ℤ n (pos 0))) [
    | inl e ↦ rw e (zero e)
    | inr e ↦ rw e (after_ranked _ is_real_thick (λ row p. p) fail (go e))
  ]
