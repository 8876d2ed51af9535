-- ===== src/Sign/Payload.antt =====
-- The signed messages as one type, and that a message is read from its payload in one way.
use muninn.Prelude.{ℕ, zero, suc, ◌≡◌, ◌++◌, [], ◌∷◌, arith, append_assoc, ap}
use muninn.Prelude.Int.{ℤ}
use mathlib.Core.List.{append_cancel_left}
use muninn.Text.{Text, codes}
use muninn.Text.Decimal.{itoa}
use muninn.Text.Decimal.RoundTrip.{itoa-Lacks, itoa_injective}
use muninn.Text.Split.{Lacks, cut_first}
use muninn.Sign.{expected_payload, reported_payload, confirmed_payload, read_payload}

pub data Message : Type 0 where
  expected : Text → ℤ → Text → Message
  reported : Text → ℤ → Text → Text → Message
  confirmed : Text → ℤ → Text → Message
  read : Text → Message

abbrev pub payload : Message → Text
payload (expected f i h) = expected_payload f i h
payload (reported f i h s) = reported_payload f i h s
payload (confirmed f i h) = confirmed_payload f i h
payload (read f) = read_payload f

-- Neither the file's id nor the hash holds a line feed.
abbrev pub IsPlain : Message → Type 0
IsPlain (expected f i h) = Lacks b'\n' f × Lacks b'\n' h
IsPlain (reported f i h s) = Lacks b'\n' f × Lacks b'\n' h
IsPlain (confirmed f i h) = Lacks b'\n' f × Lacks b'\n' h
IsPlain (read f) = Lacks b'\n' f

three_parts :
    (f g : Text) (i j : ℤ) (h k : Text)
    → Lacks b'\n' f
    → Lacks b'\n' g
    → f ++ b'\n' ∷ (itoa i ++ b'\n' ∷ h) ≡ g ++ b'\n' ∷ (itoa j ++ b'\n' ∷ k)
    → (f ≡ g) × (i ≡ j) × (h ≡ k)
three_parts f g i j h k hf hg e =
    let (same_file, rest) = cut_first b'\n' f g _ _ hf hg e in
    let (same_index, same_hash) =
      cut_first b'\n' (itoa i) (itoa j) h k (itoa-Lacks b'\n' i (omega arith))
        (itoa-Lacks b'\n' j (omega arith)) rest in
    (same_file, itoa_injective i j same_index, same_hash)

four_parts :
    (f g : Text) (i j : ℤ) (h k s t : Text)
    → Lacks b'\n' f × Lacks b'\n' h
    → Lacks b'\n' g × Lacks b'\n' k
    → f ++ b'\n' ∷ (itoa i ++ b'\n' ∷ (h ++ b'\n' ∷ s))
      ≡ g ++ b'\n' ∷ (itoa j ++ b'\n' ∷ (k ++ b'\n' ∷ t))
    → (f ≡ g) × (i ≡ j) × (h ≡ k) × (s ≡ t)
four_parts f g i j h k s t (hf, hh) (hg, hk) e =
    let (same_file, same_index, rest) = three_parts f g i j _ _ hf hg e in
    let (same_hash, same_source) = cut_first b'\n' h k s t hh hk rest in
    (same_file, same_index, same_hash, same_source)

abbrev char_at : ℕ → Text → ℕ
char_at n [] = 0
char_at zero (c ∷ s) = c
char_at (suc n) (c ∷ s) = char_at n s

-- Messages that hold no line feed in a file id or a hash are told apart by what is signed: a
-- signature for one of them is a signature for no other, neither of its kind nor of another.
pub payload_injective : (m n : Message) → IsPlain m → IsPlain n → payload m ≡ payload n → m ≡ n
unfolding expected_payload reported_payload confirmed_payload read_payload
payload_injective (expected f i h) (expected g j k) p q e =
    let (a, b, c) =
      three_parts f g i j h k p.0 q.0 (append_cancel_left (codes "muninn/expected/v1\n") _ _ e) in
    cc (a, b, c)
payload_injective (reported f i h s) (reported g j k t) p q e =
    let (a, b, c, d) =
      four_parts f g i j h k s t p q (append_cancel_left (codes "muninn/reported/v1\n") _ _ e) in
    cc (a, b, c, d)
payload_injective (confirmed f i h) (confirmed g j k) p q e =
    let (a, b, c) =
      three_parts f g i j h k p.0 q.0 (append_cancel_left (codes "muninn/confirmed/v1\n") _ _ e) in
    cc (a, b, c)
payload_injective (read f) (read g) p q e =
    ap read (append_cancel_left (codes "muninn/read/v1\n") _ _ e)
payload_injective _ _ p q e = absurd (omega (arith, ap (char_at 7) e, ap (char_at 9) e))

-- Without that condition two reports share a payload: the line feed may stand in the file's id of
-- one and in the source's id of the other.
pub reported_payload_ambiguous :
    (f h s k t : Text) (i j : ℤ)
    → reported_payload f i h (s ++ b'\n' ∷ (itoa j ++ b'\n' ∷ (k ++ b'\n' ∷ t)))
      ≡ reported_payload (f ++ b'\n' ∷ (itoa i ++ b'\n' ∷ (h ++ b'\n' ∷ s))) j k t
unfolding reported_payload
reported_payload_ambiguous f h s k t i j = simp append_assoc
