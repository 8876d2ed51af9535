-- ===== src/Memory/Queries.antt =====
-- The methods that only read leave the state as it was.
use muninn.Prelude.{◌≡◌, refl, arith}
use muninn.Prelude.Int.{ℤ}
use muninn.Text.{Text}
use muninn.Outside.{Outside}
use muninn.Exec.{◌>>=◌, get, pure}
use muninn.Exec.Rules.{after_reject, after_get, after_pure}
use muninn.Memory.{Memory}
use muninn.Memory.Peers.{get_peer, get_by_key, list}
use muninn.Memory.Peers.Outcome.{get_peer_outcome, get_by_key_outcome}
use muninn.Memory.Ranking.{get_best_peers, get_best_thick_peers}
use muninn.Memory.Chunks.{get_chunks_by_recipient, get_chunks_by_file_id}

module _ (o : Outside) (s : Memory) where
  pub get_peer-state : (id : Text) → (get_peer o id s).1 ≡ s
  get_peer-state id = get_peer_outcome o id s (λ r. r.1 ≡ s) (λ _. refl) (λ _ _. refl)

  pub get_by_key-state : (login signature : Text) → (get_by_key o login signature s).1 ≡ s
  get_by_key-state login signature =
      get_by_key_outcome o login signature s (λ r. r.1 ≡ s) (λ _. refl) (λ _. refl) (λ _ _ _. refl)
        (λ _ _ _ _ _. refl)

  pub list-state : (list o s).1 ≡ s
  unfolding list ◌>>=◌ get pure
  list-state = refl

  pub get_best_peers-state : (n : ℤ) → (get_best_peers o n s).1 ≡ s
  unfolding get_best_peers pure
  get_best_peers-state n = ground arith

  pub get_best_thick_peers-state : (n : ℤ) → (get_best_thick_peers o n s).1 ≡ s
  unfolding get_best_thick_peers pure
  get_best_thick_peers-state n = ground arith

module _ (s : Memory) (id : Text) where
  pub get_chunks_by_recipient-state : (from : ℤ) → (get_chunks_by_recipient id from s).1 ≡ s
  unfolding get_chunks_by_recipient
  get_chunks_by_recipient-state from =
      after_reject (λ r. r.1 ≡ s) _ _ s (λ _. refl)
        λ _. after_get (λ r. r.1 ≡ s) _ s (after_pure (λ r. r.1 ≡ s) _ s refl)

  pub get_chunks_by_file_id-state : (get_chunks_by_file_id id s).1 ≡ s
  unfolding get_chunks_by_file_id
  get_chunks_by_file_id-state =
      after_reject (λ r. r.1 ≡ s) _ _ s (λ _. refl)
        λ _. after_get (λ r. r.1 ≡ s) _ s (after_pure (λ r. r.1 ≡ s) _ s refl)
