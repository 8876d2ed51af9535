-- ===== src/Memory/Peers/Register.antt =====
-- What a registration, a heartbeat and a deletion leave for the next reader.
use mathlib.Core.Option.{get_or}
use muninn.Prelude.{
  Bool, ℕ, ◌≡◌, ◌≤◌, ◌<◌, ◌*◌, refl, false, Option, none, some, arith, if◌then◌else◌, sym, ap, ◌∙◌,
}
use muninn.Prelude.Int.{ℤ, pos, ◌-ℤ◌, ltb_ℤ, leb_ℤ, IsInt}
use muninn.Text.{Text, is_empty, trim_space, text_eq}
use muninn.Text.Equality.{text_eq_refl, text_eq_iff}
use muninn.Model.{Peer, RegisterRequest}
use muninn.Outside.{Outside}
use muninn.Score.{not_found}
use muninn.Assoc.{find, put, find-put, find-remove}
use muninn.Exec.{ok, err}
use muninn.Memory.{Memory, is_expired}
use muninn.Memory.Expiry.{is_expired_exact, is_expired_at_once, longest_ttl, positive_or_id}
use muninn.Memory.Peers.{
  upsert, upsert_at, store_peer, get_peer, delete, heartbeat, requested_peer, new_peer,
  renewed_peer, flag_or_false,
}
use muninn.Memory.Peers.Outcome.{
  upsert_outcome, delete_outcome, heartbeat_outcome, get_peer_outcome, beating,
}

-- The peer that a registration writes over what stood under the id.
abbrev pub registered : Outside → RegisterRequest → Option Peer → Peer
registered o req none = new_peer req (requested_peer o req (trim_space req.id))
registered o req (some old) = renewed_peer req old (requested_peer o req (trim_space req.id))

-- What a peer under a registration's id has of the one that stood there, if one did.
abbrev pub IsSuccessor : RegisterRequest → Option Peer → Peer → Type 0
IsSuccessor req none p =
    (p.encryption_key ≡ trim_space req.encryption_key)
    × (p.signature_key ≡ trim_space req.signature_key)
    × (p.quality_score ≡ pos 1000)
    × (p.quality ≡ record { valid_reports = pos 0; invalid_reports = pos 0 })
    × (p.peer_flag ≡ req.peer_flag)
    × (p.fake ≡ get_or req.fake false)
IsSuccessor req (some old) p =
    (p.encryption_key ≡ old.encryption_key)
    × (p.signature_key ≡ old.signature_key)
    × (p.quality_score ≡ old.quality_score)
    × (p.quality ≡ old.quality)
    × (p.peer_flag ≡ (if is_empty req.peer_flag then old.peer_flag else req.peer_flag))
    × (p.fake ≡ old.fake)

-- The peer `p` of a registration at `o` under whose id `old` stood.
pub record IsRegistered (o : Outside) (req : RegisterRequest) (old : Option Peer) (p : Peer)
    : Type 0 where
  pub named : p.id ≡ trim_space req.id
  pub login : p.login ≡ trim_space req.login
  pub seen : p.last_seen ≡ o.now
  pub ttl : p.ttl_seconds ≡ (if leb_ℤ req.ttl_seconds (pos 0) then pos 300 else req.ttl_seconds)
  pub successor : IsSuccessor req old p

flag_or_false_lem : (b : Option Bool) → flag_or_false b ≡ get_or b false
flag_or_false_lem none = refl
flag_or_false_lem (some b) = refl

registered-IsRegistered :
    (o : Outside) (req : RegisterRequest) (old : Option Peer)
    → IsRegistered o req old (registered o req old)
registered-IsRegistered o req none = record {
  named = refl;
  login = refl;
  seen = refl;
  ttl = refl;
  successor = (refl, refl, refl, refl, refl, flag_or_false_lem req.fake);
}
registered-IsRegistered o req (some old) = record {
  named = refl;
  login = refl;
  seen = refl;
  ttl = refl;
  successor = (refl, refl, refl, refl, refl, refl);
}

upsert_at-peers :
    (o : Outside) (req : RegisterRequest) (r : Option Peer) (s : Memory)
    → (upsert_at req (trim_space req.id) (requested_peer o req (trim_space req.id)) r s).peers
      ≡ put (trim_space req.id) (registered o req r) s.peers
unfolding upsert_at store_peer
upsert_at-peers o req none s = refl
upsert_at-peers o req (some old) s = refl

module _ (o : Outside) (req : RegisterRequest) (s : Memory) where
  find-upsert_registered :
      (j : Text)
      → is_empty (trim_space req.id) ≡ false
      → find j (upsert o req s).1.peers ≡ (
          if text_eq (trim_space req.id) j
          then some (registered o req (find (trim_space req.id) s.peers))
          else find j s.peers)
  find-upsert_registered j good =
      upsert_outcome o req s
        (λ r. find j r.1.peers ≡ (
          if text_eq (trim_space req.id) j
          then some (registered o req (find (trim_space req.id) s.peers))
          else find j s.peers))
        (λ bad. absurd (ground arith)) (λ _. rw upsert_at-peers (find-put _ j _ s.peers))

  -- A registration with an id that is not blank puts one peer under the trimmed id, and leaves what
  -- stands under every other id. The peer has the trimmed id and login, the instant of the call as
  -- the time of its last sign of life, and the request's time to live, or 300 if that is not
  -- positive. An old peer under the id passes on its keys, score, counters and mark as fake, and
  -- its flag if the request has none; otherwise the keys, the flag and the mark are the request's,
  -- the mark being no where the request has none, the score is 1000 and the counters are 0.
  pub find-upsert :
      is_empty (trim_space req.id) ≡ false
      → (p : Peer) × IsRegistered o req (find (trim_space req.id) s.peers) p
        × ((j : Text)
            → find j (upsert o req s).1.peers
              ≡ (if text_eq (trim_space req.id) j then some p else find j s.peers))
  find-upsert good = (
    registered o req (find (trim_space req.id) s.peers),
    registered-IsRegistered o req (find (trim_space req.id) s.peers),
    λ j. find-upsert_registered j good,
  )

get_peer_found :
    (o : Outside) (id : Text) (s : Memory) (p : Peer)
    → find id s.peers ≡ some p
    → (get_peer o id s).0 ≡ (if is_expired p o.now then err not_found else ok p)
get_peer_found o id s p found =
    get_peer_outcome o id s (λ r. r.0 ≡ (if is_expired p o.now then err not_found else ok p))
      (λ gone. ground arith) (λ q h. ground arith)

registered_clock :
    (o : Outside) (req : RegisterRequest) (r : Option Peer) (t : ℕ)
    → req.ttl_seconds ≡ pos t
    → 0 < t
    → ((registered o req r).last_seen ≡ o.now) × ((registered o req r).ttl_seconds ≡ pos t)
registered_clock o req none t e h = (refl, rw e (positive_or_id t h))
registered_clock o req (some old) t e h = (refl, rw e (positive_or_id t h))

get_peer-registered :
    (o o' : Outside) (req : RegisterRequest) (s : Memory)
    → is_empty (trim_space req.id) ≡ false
    → (get_peer o' (trim_space req.id) (upsert o req s).1).0 ≡ (
        if is_expired (registered o req (find (trim_space req.id) s.peers)) o'.now
        then err not_found
        else ok (registered o req (find (trim_space req.id) s.peers)))
get_peer-registered o o' req s good =
    get_peer_found o' (trim_space req.id) (upsert o req s).1 _
      (find-upsert_registered o req s (trim_space req.id) good ∙ rw text_eq_refl refl)

-- The peer of a registration is returned by `Get` under the trimmed id as long as more than its
-- time to live has not passed, and not afterwards: for a time to live of at most 9223372036
-- seconds and a clock less than 292 years on.
pub get_peer-upsert :
    (o o' : Outside) (req : RegisterRequest) (s : Memory) (t : ℕ)
    → is_empty (trim_space req.id) ≡ false
    → req.ttl_seconds ≡ pos t
    → 0 < t
    → t ≤ longest_ttl
    → IsInt (o'.now -ℤ o.now)
    → (get_peer o' (trim_space req.id) (upsert o req s).1).0 ≡ (
        if ltb_ℤ (pos (t * 1000000000)) (o'.now -ℤ o.now)
        then err not_found
        else ok (registered o req (find (trim_space req.id) s.peers)))
get_peer-upsert o o' req s t good e positive fits d =
    let p = registered o req (find (trim_space req.id) s.peers) in
    let (seen, ttl) = registered_clock o req (find (trim_space req.id) s.peers) t e positive in
    get_peer-registered o o' req s good
    ∙ ap (λ b. if b then err not_found else ok p)
        (is_expired_exact p o'.now t ttl positive fits (rw seen d) ∙ rw seen refl)

-- A registration for 9223372037 to 18446744073 seconds is lost: at the same instant `Get` no longer
-- finds the peer.
pub get_peer-upsert_overflow :
    (o : Outside) (req : RegisterRequest) (s : Memory) (t : ℕ)
    → is_empty (trim_space req.id) ≡ false
    → req.ttl_seconds ≡ pos t
    → longest_ttl < t
    → t ≤ 18446744073
    → (get_peer o (trim_space req.id) (upsert o req s).1).0 ≡ err not_found
get_peer-upsert_overflow o req s t good e h k =
    let p = registered o req (find (trim_space req.id) s.peers) in
    let (seen, ttl) = registered_clock o req (find (trim_space req.id) s.peers) t e (omega arith) in
    get_peer-registered o o req s good
    ∙ ap (λ b. if b then err not_found else ok p)
        (ap (is_expired p) (sym seen) ∙ is_expired_at_once p t ttl h k)

-- After a deletion nothing stands under the id, and what stands under every other id stays, whether
-- the deletion found the id or not.
pub find-delete :
    (id j : Text) (s : Memory)
    → find j (delete id s).1.peers ≡ (if text_eq id j then none else find j s.peers)
find-delete id j s =
    delete_outcome id s (λ r. find j r.1.peers ≡ (if text_eq id j then none else find j s.peers))
      (λ missing. ground (arith, text_eq_iff id j)) (λ p found. find-remove id j s.peers)

abbrev pub beaten : Outside → ℤ → Option Peer → Option Peer
beaten o ttl none = none
beaten o ttl (some p) = some (beating o ttl p)

-- A heartbeat sets the time of the last sign of life and, where the request's time to live is
-- positive, the peer's; it adds no peer, and what stands under every other id stays.
pub find-heartbeat :
    (o : Outside) (id j : Text) (ttl : ℤ) (s : Memory)
    → find j (heartbeat o id ttl s).1.peers
      ≡ (if text_eq id j then beaten o ttl (find id s.peers) else find j s.peers)
find-heartbeat o id j ttl s =
    heartbeat_outcome o id ttl s
      (λ r.
        find j r.1.peers
        ≡ (if text_eq id j then beaten o ttl (find id s.peers) else find j s.peers))
      (λ missing. ground (arith, text_eq_iff id j))
      (λ p found. rw (find-put id j (beating o ttl p) s.peers, found) refl)
