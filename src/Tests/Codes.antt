-- ===== src/Tests/Codes.antt =====
-- Tests and examples of the texts, numbers, hashes, signatures and scores.
use muninn.Prelude.{ℕ, ◌≡◌, refl, true, none, ◌↔◌, arith}
use muninn.Prelude.Int.{ℤ, pos, negsuc}
use muninn.Text.{codes}
use muninn.Text.Decimal.{atoi, itoa}
use muninn.Text.Decimal.RoundTrip.{atoi-itoa}
use muninn.Model.{Peer, very_thick}
use muninn.Hash.{chunk_key, parse_chunk_key, valid_hash_format}
use muninn.Hash.Keys.{parse_chunk_key-chunk_key, chunk_key_injective}
use muninn.Hash.Format.{valid_hash_format_iff, IsHash}
use muninn.Sign.{verify}
use muninn.Sign.Payload.{Message, payload_injective}
use muninn.Sign.Verify.{IsSignature, verify_iff}
use muninn.Score.{effective_score, peer_flag_exponent}
use muninn.Score.Order.{effective_score-exact, exact}
use muninn.Memory.{is_expired}
use muninn.Memory.Expiry.{is_expired_at_once}
use muninn.Memory.Peers.{requested_peer, new_peer}
use muninn.Tests.{outside, register_alice, first_hash}

atoi-itoa_example : atoi (itoa (pos 4096)) ≡ (pos 4096, true)
atoi-itoa_example = atoi-itoa 4096 (omega arith)

parse_chunk_key-chunk_key_example :
    parse_chunk_key (chunk_key (codes "f/1") (pos 7)) ≡ (codes "f/1", pos 7)
parse_chunk_key-chunk_key_example =
    parse_chunk_key-chunk_key (codes "f/1") 7
      ((λ e. omega arith), ((λ e. omega arith), ((λ e. omega arith), tt))) (omega arith)

chunk_key_injective_example : (codes "a#b" ≡ codes "a#b") × (pos 3 ≡ pos 3)
chunk_key_injective_example = chunk_key_injective (codes "a#b") (codes "a#b") (pos 3) (pos 3) refl

valid_hash_format_iff_example : (valid_hash_format first_hash ≡ true) ↔ IsHash first_hash
valid_hash_format_iff_example = valid_hash_format_iff first_hash

payload_injective_example : Message.read (codes "f") ≡ Message.read (codes "f")
payload_injective_example =
    payload_injective (Message.read (codes "f")) (Message.read (codes "f")) ((λ e. omega arith), tt)
      ((λ e. omega arith), tt) refl

accepted_example : verify (outside 1) (codes "key") (codes "sig") (codes "m") ≡ none
unfolding verify
accepted_example = refl

accepted-IsSignature : IsSignature (outside 1) (codes "key") (codes "sig") (codes "m")
accepted-IsSignature =
    (verify_iff (outside 1) (codes "key") (codes "sig") (codes "m")).0 accepted_example

verify_iff_example :
    (verify (outside 1) (codes "key") (codes "sig") (codes "m") ≡ none)
    ↔ IsSignature (outside 1) (codes "key") (codes "sig") (codes "m")
verify_iff_example = verify_iff (outside 1) (codes "key") (codes "sig") (codes "m")

abbrev peer_of_score : ℤ → Peer
peer_of_score n =
    record (new_peer register_alice (requested_peer (outside 1) register_alice (codes "alice"))) {
      quality_score = n;
      peer_flag = very_thick;
    }

effective_score-exact_example :
    effective_score (peer_of_score (negsuc 9))
    ≡ exact (peer_flag_exponent (peer_of_score (negsuc 9)).peer_flag) (negsuc 9)
effective_score-exact_example = effective_score-exact (peer_of_score (negsuc 9)) (omega arith)

abbrev peer_of_ttl : ℕ → Peer
peer_of_ttl t = record (peer_of_score (pos 0)) { ttl_seconds = pos t }

is_expired_at_once_example :
    is_expired (peer_of_ttl 9223372037) (peer_of_ttl 9223372037).last_seen ≡ true
is_expired_at_once_example =
    is_expired_at_once (peer_of_ttl 9223372037) 9223372037 refl (omega arith) (omega arith)
