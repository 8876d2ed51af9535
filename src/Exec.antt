-- ===== src/Exec.antt =====
-- Methods that change a state and return a value and an error.
pub mod Rules
use muninn.Prelude.{Bool, true, false, Option, none, some}
use muninn.Score.{Error}

-- A returned `(value, err)`: the value counts only if the error is nil.
pub data Result {ℓ} (A : Type ℓ) : Type ℓ where
  ok : A → Result A
  err : Error → Result A

-- A method over the state `S`. What was written before an error stays written.
abbrev pub Exec : Type 0 → Type 0 → Type 0
Exec S A = S → Result A × S

unfoldable pub pure : {S A : Type 0} → A → Exec S A
pure a s = (ok a, s)

unfoldable pub raise : {S A : Type 0} → Error → Exec S A
raise e s = (err e, s)

infixl 5 ◌>>=◌ ◌>>◌
unfoldable pub continue : {S A B : Type 0} → Result A → (A → Exec S B) → Exec S B
continue (ok a) f s = f a s
continue (err e) f s = (err e, s)

unfoldable pub ◌>>=◌ : {S A B : Type 0} → Exec S A → (A → Exec S B) → Exec S B
unfolding continue pure raise
◌>>=◌ m f s = let (r, s') = m s in continue r f s'

abbrev pub ◌>>◌ : {S A B : Type 0} → Exec S A → Exec S B → Exec S B
m >> n = m >>= λ _. n

-- `if bad { return e }`
unfoldable pub reject_if : {S : Type 0} → Bool → Error → Exec S (Unit {0})
unfolding pure raise
reject_if true e = raise e
reject_if false e = pure tt

-- `v, ok := …; if !ok { return e }`
unfoldable pub require : {S A : Type 0} → Option A → Error → Exec S A
unfolding pure raise
require none e = raise e
require (some a) e = pure a

-- `if err := …; err != nil { return err }`
unfoldable pub check : {S : Type 0} → Option Error → Exec S (Unit {0})
unfolding pure raise
check none = pure tt
check (some e) = raise e

unfoldable pub get : {S : Type 0} → Exec S S
get s = (ok s, s)

unfoldable pub modify : {S : Type 0} → (S → S) → Exec S (Unit {0})
modify f s = (ok tt, f s)
