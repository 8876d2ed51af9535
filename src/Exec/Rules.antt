-- ===== src/Exec/Rules.antt =====
-- What holds of the outcome of a method, the value or error with the state behind it, is shown
-- guard by guard: each rule has a case for the guard that stops the method and one for the rest.
use muninn.Prelude.{◌≡◌, refl, Bool, true, false, Option, none, some}
use muninn.Score.{Error}
use muninn.Exec.{Result, ok, err, Exec, ◌>>=◌, ◌>>◌, pure, reject_if, require, check, get, modify}

module _ {ℓ} {S B : Type 0} (Q : Result B × S → Type ℓ) where
  pub after_reject :
      (b : Bool) {e : Error} (k : Exec S B) (s : S)
      → (b ≡ true → Q (err e, s))
      → (b ≡ false → Q (k s))
      → Q ((reject_if b e >> k) s)
  unfolding ◌>>=◌ reject_if
  after_reject true k s stop go = stop refl
  after_reject false k s stop go = go refl

  pub after_check :
      (o : Option Error) (k : Exec S B) (s : S)
      → ((e : Error) → o ≡ some e → Q (err e, s))
      → (o ≡ none → Q (k s))
      → Q ((check o >> k) s)
  unfolding ◌>>=◌ check
  after_check none k s stop go = go refl
  after_check (some e) k s stop go = stop e refl

  pub after_require :
      {A : Type 0} (o : Option A) {e : Error} (k : A → Exec S B) (s : S)
      → (o ≡ none → Q (err e, s))
      → ((a : A) → o ≡ some a → Q (k a s))
      → Q ((require o e >>= k) s)
  unfolding ◌>>=◌ require
  after_require none k s stop go = stop refl
  after_require (some a) k s stop go = go a refl

  pub after_get : (k : S → Exec S B) (s : S) → Q (k s s) → Q ((get >>= k) s)
  unfolding ◌>>=◌ get
  after_get k s go = go

  pub after_modify : (f : S → S) (k : Exec S B) (s : S) → Q (k (f s)) → Q ((modify f >> k) s)
  unfolding ◌>>=◌ modify
  after_modify f k s go = go

  pub after_pure : (b : B) (s : S) → Q (ok b, s) → Q (pure b s)
  unfolding pure
  after_pure b s go = go

module _ {ℓ} {S : Type 0} (Q : Result (Unit {0}) × S → Type ℓ) where
  pub after_last_modify : (f : S → S) (s : S) → Q (ok tt, f s) → Q (modify f s)
  unfolding modify
  after_last_modify f s go = go

module _ {ℓ} {S A : Type 0} (Q : Result A × S → Type ℓ) where
  pub after_last_require :
      (o : Option A) {e : Error} (s : S)
      → (o ≡ none → Q (err e, s))
      → ((a : A) → o ≡ some a → Q (ok a, s))
      → Q (require o e s)
  unfolding require
  after_last_require none s stop go = stop refl
  after_last_require (some a) s stop go = go a refl
