-- ===== src/Outside.antt =====
-- What the program takes from outside: the clock, the order in which Go walks a map, and the parts
-- of the standard library that this development does not define.
use muninn.Prelude.{ℕ, List, Option, Bool}
use muninn.Prelude.Int.{ℤ, floor_div}
use mathlib.Core.List.{Permᴰ}
use muninn.Text.{Text}
use muninn.Model.{Peer}

-- One call of an operation. The whole call takes place at the instant `now`. `order i` is the order
-- in which the i-th `range` over the peers in the call meets them.
pub record Outside : Type 0 where
  pub now : ℤ
  pub order : ℕ → List (Text × Peer) → List (Text × Peer)
  -- `unicode.ToLower` beyond ASCII
  pub lower_wide : ℕ → ℕ
  -- `base64.StdEncoding.DecodeString`; `none` is an error
  pub decode_base64 : Text → Option (List ℕ)
  -- `ed25519.Verify(key, message, signature)`; the message is the UTF-8 encoding of a text
  pub ed25519_verify : List ℕ → Text → List ℕ → Bool

-- A `range` over a map meets every entry once.
pub record IsFair (o : Outside) : Type 0 where
  pub order_perm : (i : ℕ) (m : List (Text × Peer)) → Permᴰ (o.order i m) m

-- `time.Now().Unix()`.
unfoldable pub unix_now : Outside → ℤ
unfolding floor_div
unix_now o = floor_div o.now 1000000000
