-- ===== src/Sign.antt =====
-- internal/sign/sign.go: the messages that are signed, and the check of a signature.
pub mod Payload
pub mod Verify
use muninn.Prelude.{
  ℕ, ◌≡◌, refl, Bool, true, false, not, ◌||◌, List, [], ◌∷◌, ◌++◌, Option, none, some, ◌==◌,
  if◌then◌else◌, length,
}
use muninn.Prelude.Int.{ℤ, pos}
use muninn.Text.{Text, codes, trim_space}
use muninn.Text.Decimal.{itoa}
use muninn.Outside.{Outside}

unfoldable pub expected_payload : Text → ℤ → Text → Text
unfolding itoa
expected_payload file_id chunk_index hash =
    codes "muninn/expected/v1\n" ++ (file_id ++ b'\n' ∷ (itoa chunk_index ++ b'\n' ∷ hash))

unfoldable pub reported_payload : Text → ℤ → Text → Text → Text
unfolding itoa
reported_payload file_id chunk_index hash source_peer_id =
    codes "muninn/reported/v1\n"
    ++ (file_id ++ b'\n' ∷ (itoa chunk_index ++ b'\n' ∷ (hash ++ b'\n' ∷ source_peer_id)))

unfoldable pub confirmed_payload : Text → ℤ → Text → Text
unfolding itoa
confirmed_payload file_id chunk_index hash =
    codes "muninn/confirmed/v1\n" ++ (file_id ++ b'\n' ∷ (itoa chunk_index ++ b'\n' ∷ hash))

unfoldable pub read_payload : Text → Text
read_payload file_id = codes "muninn/read/v1\n" ++ file_id

pub data SignError : Type 0 where
  invalid_key invalid_signature : SignError

abbrev public_key_size : ℕ
public_key_size = 32

abbrev signature_size : ℕ
signature_size = 64

-- What `DecodeString` returned, if it is a key: `none` is `ErrInvalidKey`.
abbrev sized_key : Option (List ℕ) → Option (List ℕ)
sized_key none = none
sized_key (some raw) = if length raw == public_key_size then some raw else none

unfoldable pub decode_public_key : Outside → Text → Option (List ℕ)
unfolding trim_space
decode_public_key o b64 = sized_key (o.decode_base64 (trim_space b64))

-- The checks behind the key; `none` is no error.
abbrev check_signature : Outside → List ℕ → Text → Option (List ℕ) → Option SignError
check_signature o pub_key message none = some invalid_signature
check_signature o pub_key message (some sig) =
    if not (length sig == signature_size)
    then some invalid_signature
    else if o.ed25519_verify pub_key message sig
    then none
    else some invalid_signature

abbrev verify_with : Outside → Option (List ℕ) → Text → Text → Option SignError
verify_with o none signature_b64 message = some invalid_key
verify_with o (some pub_key) signature_b64 message =
    check_signature o pub_key message (o.decode_base64 (trim_space signature_b64))

-- `Verify`: `none` is a nil error.
unfoldable pub verify : Outside → Text → Text → Text → Option SignError
unfolding decode_public_key trim_space
verify o public_key_b64 signature_b64 message =
    verify_with o (decode_public_key o public_key_b64) signature_b64 message

expected_test :
    expected_payload (codes "f") (pos 3) (codes "ab") ≡ codes "muninn/expected/v1\nf\n3\nab"
unfolding expected_payload
expected_test = refl
