-- ===== src/Action.antt =====
-- Methods that call a database: they change a state, and return a value and an error or panic.
pub mod Rules
use muninn.Prelude.{ℕ, Bool, true, false, Option, none, some, String}
use muninn.Text.{Text, codes}
use muninn.Score.{Error, other, wrapped}

-- A returned `(value, err)`, or a panic of the Go program.
pub data Reply {ℓ} (A : Type ℓ) : Type ℓ where
  done : A → Reply A
  failed : Error → Reply A
  panicked : Reply A

-- What was written before an error or a panic stays written.
abbrev pub Action : Type 0 → Type 0 → Type 0
Action S A = S → Reply A × S

module _ {S : Type 0} where
  unfoldable pub pure : {A : Type 0} → A → Action S A
  pure a s = (done a, s)

  unfoldable pub continue : {A B : Type 0} → Reply A → (A → Action S B) → Action S B
  continue (done a) f s = f a s
  continue (failed e) f s = (failed e, s)
  continue panicked f s = (panicked, s)

  infixl 5 ◌>>=◌ ◌>>◌
  unfoldable pub ◌>>=◌ : {A B : Type 0} → Action S A → (A → Action S B) → Action S B
  unfolding continue
  ◌>>=◌ m f s = let (r, s') = m s in continue r f s'

  abbrev pub ◌>>◌ : {A B : Type 0} → Action S A → Action S B → Action S B
  m >> n = m >>= λ _. n

  unfoldable pub reject_if : Bool → Error → Action S (Unit {0})
  reject_if true e s = (failed e, s)
  reject_if false e s = (done tt, s)

  unfoldable pub require : {A : Type 0} → Option A → Error → Action S A
  require none e s = (failed e, s)
  require (some a) e s = (done a, s)

  unfoldable pub check : Option Error → Action S (Unit {0})
  check none s = (done tt, s)
  check (some e) s = (failed e, s)

  -- An index out of range.
  unfoldable pub or_panic : {A : Type 0} → Option A → Action S A
  or_panic none s = (panicked, s)
  or_panic (some a) s = (done a, s)

  unfoldable pub get : Action S S
  get s = (done s, s)

  unfoldable pub modify : (S → S) → Action S (Unit {0})
  modify f s = (done tt, f s)

-- `if err != nil { return fmt.Errorf("…%w", err) }`
abbrev pub wrap_reply : {A : Type 0} → Text → Reply A → Reply A
wrap_reply context (done a) = done a
wrap_reply context (failed e) = failed (wrapped context e)
wrap_reply context panicked = panicked

-- `if err != nil { return e }`
abbrev pub replace_reply : {A : Type 0} → Error → Reply A → Reply A
replace_reply e (done a) = done a
replace_reply e (failed f) = failed e
replace_reply e panicked = panicked

module _ {S A : Type 0} where
  unfoldable pub wrap : Text → Action S A → Action S A
  wrap context m s = let (r, s') = m s in (wrap_reply context r, s')

  unfoldable pub replace_error : Error → Action S A → Action S A
  replace_error e m s = let (r, s') = m s in (replace_reply e r, s')
