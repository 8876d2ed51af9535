-- ===== src/Sign/Verify.antt =====
-- `Verify` of internal/sign/sign.go accepts a signature in exactly one case.
use muninn.Prelude.{◌↔◌, ℕ, ◌≡◌, refl, true, Option, none, some, List, arith, length}
use muninn.Text.{Text, trim_space}
use muninn.Outside.{Outside}
use muninn.Sign.{verify, verify_with, decode_public_key, sized_key, check_signature}

-- The key and the signature are Base64 of 32 and of 64 bytes, spaces around them aside, and Ed25519
-- accepts them for the message.
pub record IsSignature (o : Outside) (public_key_b64 signature_b64 message : Text) : Type 0 where
  pub pub_key : List ℕ
  pub sig : List ℕ
  pub key_decodes : o.decode_base64 (trim_space public_key_b64) ≡ some pub_key
  pub key_size : length pub_key ≡ 32
  pub sig_decodes : o.decode_base64 (trim_space signature_b64) ≡ some sig
  pub sig_size : length sig ≡ 64
  pub accepted : o.ed25519_verify pub_key message sig ≡ true

sized_key-some :
    (r : Option (List ℕ)) (k : List ℕ) → sized_key r ≡ some k → (r ≡ some k) × (length k ≡ 32)
sized_key-some none k h = cc
sized_key-some (some raw) k h = ground arith

check_none :
    (o : Outside) (k : List ℕ) (message : Text) (r : Option (List ℕ))
    → check_signature o k message r ≡ none
    → (g : List ℕ) × (r ≡ some g) × (length g ≡ 64) × (o.ed25519_verify k message g ≡ true)
check_none o k message none h = cc
check_none o k message (some g) h = (g, refl, ground arith, ground arith)

module _ (o : Outside) (key_b64 sig_b64 message : Text) where
  verify_cases :
      (r : Option (List ℕ))
      → decode_public_key o key_b64 ≡ r
      → verify_with o r sig_b64 message ≡ none
      → IsSignature o key_b64 sig_b64 message
  verify_cases none e h = cc
  verify_cases (some k) e h =
      let (key_decodes, key_size) =
        sized_key-some (o.decode_base64 (trim_space key_b64)) k (unfold decode_public_key in e) in
      let (g, decodes, size, accepted) =
        check_none o k message (o.decode_base64 (trim_space sig_b64)) h in
      record {
        pub_key = k;
        sig = g;
        key_decodes = key_decodes;
        key_size = key_size;
        sig_decodes = decodes;
        sig_size = size;
        accepted = accepted;
      }

  -- `Verify` accepts only Base64 of a key of 32 bytes with Base64 of a signature of 64 bytes that
  -- Ed25519 accepts for the message.
  pub verify_sound : verify o key_b64 sig_b64 message ≡ none → IsSignature o key_b64 sig_b64 message
  verify_sound h = verify_cases (decode_public_key o key_b64) refl (unfold verify in h)

  verify_decoded :
      (k g : List ℕ)
      → decode_public_key o key_b64 ≡ some k
      → o.decode_base64 (trim_space sig_b64) ≡ some g
      → length g ≡ 64
      → o.ed25519_verify k message g ≡ true
      → verify o key_b64 sig_b64 message ≡ none
  verify_decoded k g key_ok sig_ok size accepted =
      unfold verify in rw (key_ok, sig_ok) (ground arith)

  key_decoded :
      (k : List ℕ)
      → o.decode_base64 (trim_space key_b64) ≡ some k
      → length k ≡ 32
      → decode_public_key o key_b64 ≡ some k
  unfolding decode_public_key
  key_decoded k decodes size = rw decodes (ground arith)

  -- `Verify` accepts Base64 of a key of 32 bytes with Base64 of a signature of 64 bytes where
  -- Ed25519 accepts them for the message.
  pub verify_complete :
      IsSignature o key_b64 sig_b64 message → verify o key_b64 sig_b64 message ≡ none
  verify_complete h =
      verify_decoded h.pub_key h.sig (key_decoded h.pub_key h.key_decodes h.key_size) h.sig_decodes
        h.sig_size h.accepted

  -- `Verify` accepts exactly Base64 of a key of 32 bytes with Base64 of a signature of 64 bytes
  -- that Ed25519 accepts for the message.
  pub verify_iff : (verify o key_b64 sig_b64 message ≡ none) ↔ IsSignature o key_b64 sig_b64 message
  verify_iff = (verify_sound, verify_complete)
