-- ===== src/Memory/Peers/Refreshed.antt =====
-- What a `Refresh` does to the search by key.
use muninn.Prelude.{◌≡◌, refl, false, Option, none, some, List, In, arith, ◌∙◌, subst, sym}
use muninn.Text.{is_empty, trim_space}
use muninn.Text.Equality.{text_eq_refl}
use muninn.Model.{Peer, RefreshRequest, login_key}
use muninn.Outside.{Outside}
use muninn.Assoc.{find, find-put}
use muninn.Exec.{ok}
use muninn.Memory.{Memory, is_expired}
use muninn.Memory.Directory.{add_login_self}
use muninn.Memory.Peers.{refresh, refresh_at, get_by_key}
use muninn.Memory.Peers.Outcome.{refresh_outcome}
use muninn.Memory.Peers.ByKey.{get_by_key_listed}

-- The peer after a `Refresh`.
abbrev pub seen_now : Outside → Peer → Peer
seen_now o p = record p { last_seen = o.now }

module _ (o : Outside) (req : RefreshRequest) (s : Memory) {p : Peer} where
  -- A `Refresh` makes a stored peer answer to any key: `GetByKey` with the login and the signature
  -- of the request, which need not be the peer's, returns a list with the peer, if they are not
  -- blank and have no spaces around them and the peer does not expire at the very instant of its
  -- last sign of life.
  pub get_by_key-refresh :
      is_empty (trim_space req.id) ≡ false
      → is_empty (trim_space req.login) ≡ false
      → is_empty (trim_space req.signature_key) ≡ false
      → trim_space req.login ≡ req.login
      → trim_space req.signature_key ≡ req.signature_key
      → find (trim_space req.id) s.peers ≡ some p
      → is_expired (seen_now o p) o.now ≡ false
      → (ps : List Peer) × ((get_by_key o req.login req.signature_key (refresh o req s).1).0
          ≡ ok ps)
        × In (seen_now o p) ps
  get_by_key-refresh good l g same_l same_g found alive =
      refresh_outcome o req s
        (λ r.
          (ps : List Peer) × ((get_by_key o req.login req.signature_key r.1).0 ≡ ok ps)
          × In (seen_now o p) ps)
        (λ bad. cc (good, bad)) λ _. answered (find (trim_space req.id) s.peers) found
    where
      answered :
          (r : Option Peer)
          → r ≡ some p
          → (ps : List Peer) × ((get_by_key o req.login req.signature_key
                (refresh_at o req (trim_space req.id) r s)).0
              ≡ ok ps)
            × In (seen_now o p) ps
      answered none e = cc
      answered (some q) e =
          subst
            (λ (t : Peer).
              (ps : List Peer) × ((get_by_key o req.login req.signature_key
                  (refresh_at o req (trim_space req.id) (some t) s)).0
                ≡ ok ps)
              × In (seen_now o p) ps)
            (sym (ground arith))
            (get_by_key_listed o (refresh_at o req (trim_space req.id) (some p) s) req.login
              req.signature_key (trim_space req.id)
              (unfold refresh_at in
                rw (same_l, same_g)
                  (add_login_self (login_key req.login req.signature_key) (trim_space req.id)
                    s.logins))
              l g
              (unfold refresh_at in
                (find-put (trim_space req.id) (trim_space req.id) (seen_now o p) s.peers
                  ∙ rw text_eq_refl refl))
              alive)
