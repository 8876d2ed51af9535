-- ===== src/Score.antt =====
-- internal/store/store.go: the errors of a store, and the score by which peers are ranked.
pub mod Order
use muninn.Prelude.{ℕ, zero, suc, ◌%◌, ◌≡◌, refl, Bool, ◌&&◌, if◌then◌else◌, ◌==◌}
use muninn.Prelude.Int.{ℤ, pos, negsuc, mul64, neg64, ltb_ℤ}
use muninn.Text.{Text, text_eq}
use muninn.Model.{Peer, PeerFlag, QualityStats, thin, thick, very_thick}

-- `other` is an error of a library, by its text; `wrapped` is `fmt.Errorf("…%w", err)`.
pub data Error : Type 0 where
  not_found invalid_peer invalid_key key_taken invalid_chunk chunk_not_found : Error
  invalid_signature no_signing_key no_pending_messages : Error
  other : Text → Error
  wrapped : Text → Error → Error

abbrev pub initial_quality_score : ℤ
initial_quality_score = pos 1000

abbrev pub quality_points_valid : ℤ
quality_points_valid = pos 1

abbrev pub quality_points_invalid : ℤ
quality_points_invalid = negsuc 0

unfoldable pub peer_flag_exponent : PeerFlag → ℕ
peer_flag_exponent flag =
    if text_eq flag thin
    then 1
    else if text_eq flag thick
    then 2
    else if text_eq flag very_thick
    then 3
    else 1

-- `for i := 0; i < exp; i++ { result *= score }`
power : ℕ → ℤ → ℤ → ℤ
power zero score result = result
power (suc n) score result = power n score (mul64 result score)

unfoldable pub signed_power : ℕ → ℤ → ℤ
unfolding power mul64 neg64
signed_power exp score =
    let result = power exp score (pos 1) in
    if exp % 2 == 0 && ltb_ℤ score (pos 0) && ltb_ℤ (pos 0) result then neg64 result else result

unfoldable pub effective_score : Peer → ℤ
unfolding peer_flag_exponent signed_power
effective_score peer = signed_power (peer_flag_exponent peer.peer_flag) peer.quality_score
