-- ===== src/Memory/Expiry.antt =====
-- When a peer expires: `isExpired` of internal/store/memory.go.
use muninn.Prelude.{ℕ, ◌≡◌, ◌≤◌, ◌<◌, ◌*◌, ◌^◌, ◌-◌, true, arith}
use muninn.Prelude.Int.{ℤ, pos, negsuc, ◌-ℤ◌, ltb_ℤ, mul64, IsInt}
use muninn.Model.{Peer}
use muninn.Memory.{is_expired, duration_between, positive_or, default_ttl}

-- The longest time to live in seconds whose nanoseconds fit into an `int64`.
abbrev pub longest_ttl : ℕ
longest_ttl = 9223372036

mul64_second : (t : ℕ) → t ≤ longest_ttl → mul64 (pos t) (pos 1000000000) ≡ pos (t * 1000000000)
unfolding mul64
mul64_second t h = ground arith

duration_exact : (past now : ℤ) → IsInt (now -ℤ past) → duration_between past now ≡ now -ℤ past
unfolding duration_between
duration_exact past now h = ground arith

duration_self : (past : ℤ) → duration_between past past ≡ pos 0
unfolding duration_between ◌-ℤ◌
duration_self (pos n) = ground arith
duration_self (negsuc n) = ground arith

pub positive_or_id : (t : ℕ) → 0 < t → positive_or default_ttl (pos t) ≡ pos t
positive_or_id t h = ground arith

-- With a positive time to live of at most 9223372036 seconds, and less than 292 years after the
-- last sign of life, a peer has expired exactly if more than its time to live has passed since
-- then.
pub is_expired_exact :
    (p : Peer) (now : ℤ) (t : ℕ)
    → p.ttl_seconds ≡ pos t
    → 0 < t
    → t ≤ longest_ttl
    → IsInt (now -ℤ p.last_seen)
    → is_expired p now ≡ ltb_ℤ (pos (t * 1000000000)) (now -ℤ p.last_seen)
unfolding is_expired
is_expired_exact p now t e positive fits d =
    rw (e, positive_or_id t positive, mul64_second t fits, duration_exact p.last_seen now d)

mul64_second_wraps :
    (t : ℕ)
    → longest_ttl < t
    → t ≤ 18446744073
    → mul64 (pos t) (pos 1000000000) ≡ negsuc (2 ^ 64 - 1 - t * 1000000000)
unfolding mul64
mul64_second_wraps t h k = ground arith

-- A time to live from 9223372037 to 18446744073 seconds wraps around to a negative duration: the
-- peer has expired at the very instant of its last sign of life.
pub is_expired_at_once :
    (p : Peer) (t : ℕ)
    → p.ttl_seconds ≡ pos t
    → longest_ttl < t
    → t ≤ 18446744073
    → is_expired p p.last_seen ≡ true
unfolding is_expired
is_expired_at_once p t e h k =
    rw (e, positive_or_id t (omega arith), mul64_second_wraps t h k, duration_self) (ground arith)
