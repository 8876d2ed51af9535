-- ===== src/Action/Rules.antt =====
-- What holds of the outcome of a method, guard by guard, as in Exec/Rules.
use muninn.Prelude.{◌≡◌, refl, Bool, true, false, Option, none, some}
use muninn.Text.{Text}
use muninn.Score.{Error}
use muninn.Action.{
  Reply, done, failed, panicked, Action, ◌>>=◌, ◌>>◌, continue, pure, reject_if, require, check,
  or_panic, get, modify, wrap, wrap_reply, replace_error, replace_reply,
}

-- The postcondition `Q` behind a call that is followed by `k`.
abbrev pub Then {ℓ} :
    {S A B : Type 0} → (Reply B × S → Type ℓ) → (A → Action S B) → Reply A × S → Type ℓ
Then Q k (done a, s) = Q (k a s)
Then Q k (failed e, s) = Q (failed e, s)
Then Q k (panicked, s) = Q (panicked, s)

module _ {ℓ} {S B : Type 0} (Q : Reply B × S → Type ℓ) where
  pub after_call :
      {A : Type 0} (m : Action S A) (k : A → Action S B) (s : S) → Then Q k (m s) → Q ((m >>= k) s)
  unfolding ◌>>=◌
  after_call {A} m k s h = cases (m s) h
    where
      cases : (r : Reply A × S) → Then Q k r → Q (continue r.0 k r.1)
      cases (done a, s) h = h
      cases (failed e, s) h = h
      cases (panicked, s) h = h

  pub after_reject :
      (b : Bool) {e : Error} (k : Action S B) (s : S)
      → (b ≡ true → Q (failed e, s))
      → (b ≡ false → Q (k s))
      → Q ((reject_if b e >> k) s)
  unfolding ◌>>=◌ reject_if
  after_reject true k s stop go = stop refl
  after_reject false k s stop go = go refl

  pub after_check :
      (o : Option Error) (k : Action S B) (s : S)
      → ((e : Error) → o ≡ some e → Q (failed e, s))
      → (o ≡ none → Q (k s))
      → Q ((check o >> k) s)
  unfolding ◌>>=◌ check
  after_check none k s stop go = go refl
  after_check (some e) k s stop go = stop e refl

  pub after_require :
      {A : Type 0} (o : Option A) {e : Error} (k : A → Action S B) (s : S)
      → (o ≡ none → Q (failed e, s))
      → ((a : A) → o ≡ some a → Q (k a s))
      → Q ((require o e >>= k) s)
  unfolding ◌>>=◌ require
  after_require none k s stop go = stop refl
  after_require (some a) k s stop go = go a refl

  pub after_or_panic :
      {A : Type 0} (o : Option A) (k : A → Action S B) (s : S)
      → (o ≡ none → Q (panicked, s))
      → ((a : A) → o ≡ some a → Q (k a s))
      → Q ((or_panic o >>= k) s)
  unfolding ◌>>=◌ or_panic
  after_or_panic none k s stop go = stop refl
  after_or_panic (some a) k s stop go = go a refl

  pub after_get : (k : S → Action S B) (s : S) → Q (k s s) → Q ((get >>= k) s)
  unfolding ◌>>=◌ get
  after_get k s go = go

  pub after_modify : (f : S → S) (k : Action S B) (s : S) → Q (k (f s)) → Q ((modify f >> k) s)
  unfolding ◌>>=◌ modify
  after_modify f k s go = go

  pub after_pure : (b : B) (s : S) → Q (done b, s) → Q (pure b s)
  unfolding pure
  after_pure b s go = go

  pub after_last_require :
      (o : Option B) {e : Error} (s : S)
      → (o ≡ none → Q (failed e, s))
      → ((a : B) → o ≡ some a → Q (done a, s))
      → Q (require o e s)
  unfolding require
  after_last_require none s stop go = stop refl
  after_last_require (some a) s stop go = go a refl

  pub after_wrap :
      (context : Text) (m : Action S B) (s : S)
      → Q (wrap_reply context (m s).0, (m s).1)
      → Q (wrap context m s)
  unfolding wrap
  after_wrap context m s go = go

  pub after_replace_error :
      (e : Error) (m : Action S B) (s : S)
      → Q (replace_reply e (m s).0, (m s).1)
      → Q (replace_error e m s)
  unfolding replace_error
  after_replace_error e m s go = go

module _ {ℓ} {S : Type 0} (Q : Reply (Unit {0}) × S → Type ℓ) where
  pub after_last_modify : (f : S → S) (s : S) → Q (done tt, f s) → Q (modify f s)
  unfolding modify
  after_last_modify f s go = go
