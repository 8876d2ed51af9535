-- ===== src/Memory/Peers/ByKey.antt =====
-- `GetByKey` finds every live peer under its key, and nothing but live peers of the store.
use muninn.Prelude.{
  ◌≡◌, refl, false, Option, none, some, List, [], ◌∷◌, ◌⊎◌, arith, In, In-cons, here, there, inl,
  inr, sym, ap, ◌∙◌, subst,
}
use muninn.Text.{Text, is_empty, trim_space}
use muninn.Model.{Peer, key, login_key}
use muninn.Outside.{Outside}
use muninn.Assoc.{Assoc, find}
use muninn.Exec.{Result, ok}
use muninn.Memory.{Memory, is_expired}
use muninn.Memory.Directory.{IsListed}
use muninn.Memory.Invariant.{IsWell}
use muninn.Memory.Peers.{get_by_key, live, live_peers, non_empty, cons_some, or_nil}
use muninn.Memory.Peers.Outcome.{get_by_key_outcome}

module _ (o : Outside) (peers : Assoc Peer) where
  live-some :
      {p : Peer} (r : Option Peer) → live o r ≡ some p → (r ≡ some p) × (is_expired p o.now ≡ false)
  live-some none h = cc
  live-some (some q) h = ground arith

  In-cons_some :
      {p : Peer} (r : Option Peer) {ps : List Peer} → In p (cons_some r ps) → (r ≡ some p) ⊎ In p ps
  In-cons_some none m = inr m
  In-cons_some (some q) (here e) = inl (ap some (sym e))
  In-cons_some (some q) (there m) = inr m

  cons_some_there : {p : Peer} (r : Option Peer) {ps : List Peer} → In p ps → In p (cons_some r ps)
  cons_some_there none m = m
  cons_some_there (some q) m = there m

  pub live_peers-In :
      {p : Peer} (ids : List Text)
      → In p (live_peers o peers ids)
      → (id : Text) × In id ids × (find id peers ≡ some p) × (is_expired p o.now ≡ false)
  unfolding live_peers
  live_peers-In [] m = elim m [ ]
  live_peers-In (id ∷ ids) m = elim (In-cons_some (live o (find id peers)) m) [
    | inl e ↦ let (found, alive) = live-some (find id peers) e in (id, here refl, found, alive)
    | inr r ↦ let (j, listed, found, alive) = live_peers-In ids r in (j, there listed, found, alive)
  ]

  live_of_found :
      (id : Text) {p : Peer}
      → find id peers ≡ some p
      → is_expired p o.now ≡ false
      → live o (find id peers) ≡ some p
  live_of_found id found alive = rw found (ground arith)

  pub In-live_peers :
      {id : Text} {p : Peer} (ids : List Text)
      → In id ids
      → find id peers ≡ some p
      → is_expired p o.now ≡ false
      → In p (live_peers o peers ids)
  unfolding live_peers
  In-live_peers [] m found alive = elim m [ ]
  In-live_peers (j ∷ ids) m found alive = elim (In-cons m) [
    | inl same ↦
        rw (live_of_found j (ap (λ (i : Text). find i peers) (sym same) ∙ found) alive) (here refl)
    | inr later ↦ cons_some_there (live o (find j peers)) (In-live_peers ids later found alive)
  ]

non_empty_self : {p : Peer} (ps : List Peer) → In p ps → non_empty ps ≡ some ps
non_empty_self [] m = elim m [ ]
non_empty_self (q ∷ ps) m = refl

non_empty-some : (ps qs : List Peer) → non_empty ps ≡ some qs → ps ≡ qs
non_empty-some [] qs h = cc
non_empty-some (p ∷ ps) qs h = ground arith

ok_injective : {ps qs : List Peer} → ◌≡◌ {A = Result (List Peer)} (ok ps) (ok qs) → ps ≡ qs
ok_injective h = cc

listed_ids :
    {id : Text} (r : Option (List Text))
    → In id (or_nil r)
    → (ids : List Text) × (r ≡ some ids) × In id ids
listed_ids none m = elim m [ ]
listed_ids (some ids) m = (ids, refl, m)

module _ (o : Outside) (s : Memory) where
  -- Every peer that `GetByKey` returns stands in the store under some id, and has not expired.
  pub get_by_key_sound :
      (login signature : Text) {ps : List Peer} {p : Peer}
      → (get_by_key o login signature s).0 ≡ ok ps
      → In p ps
      → (id : Text) × (find id s.peers ≡ some p) × (is_expired p o.now ≡ false)
  get_by_key_sound login signature {ps} {p} =
      get_by_key_outcome o login signature s
        (λ r.
          r.0 ≡ ok ps
          → In p ps
          → (id : Text) × (find id s.peers ≡ some p) × (is_expired p o.now ≡ false))
        (λ _ h. cc) (λ _ h. cc) (λ _ _ _ h. cc)
        λ ids qs _ _ e h m.
          let same : live_peers o s.peers ids ≡ ps = non_empty-some _ qs e ∙ ok_injective h in
          let (id, _, found, alive) = live_peers-In o s.peers ids (subst (In p) (sym same) m) in
          (id, found, alive)

  -- A live peer whose id the list of a key holds is found by the key.
  pub get_by_key_listed :
      (login signature id : Text) {p : Peer}
      → IsListed s.logins (login_key (trim_space login) (trim_space signature)) id
      → is_empty (trim_space login) ≡ false
      → is_empty (trim_space signature) ≡ false
      → find id s.peers ≡ some p
      → is_expired p o.now ≡ false
      → (ps : List Peer) × ((get_by_key o login signature s).0 ≡ ok ps) × In p ps
  get_by_key_listed login signature id {p} listed l g found alive =
      let k = login_key (trim_space login) (trim_space signature) in
      let (ids, known, member) = listed_ids (find k s.logins) listed in
      let live_one = In-live_peers o s.peers ids member found alive in
      let some_live = non_empty_self (live_peers o s.peers ids) live_one in
      get_by_key_outcome o login signature s (λ r. (ps : List Peer) × (r.0 ≡ ok ps) × In p ps)
        (λ bad. absurd (ground arith)) (λ unknown. absurd (cc (unknown, known)))
        (λ ids' known' gone. absurd (cc (known, known', gone, some_live)))
        λ ids' qs _ known' e. (live_peers o s.peers ids, cc (known, known', e, some_live), live_one)

  -- In a store that calls have built, `GetByKey` with a login and a signature that make up the key
  -- of a live peer returns a list with that peer; neither part of the key may be blank.
  pub get_by_key_complete :
      (login signature id : Text) {p : Peer}
      → IsWell s
      → is_empty (trim_space login) ≡ false
      → is_empty (trim_space signature) ≡ false
      → find id s.peers ≡ some p
      → key p ≡ login_key (trim_space login) (trim_space signature)
      → is_expired p o.now ≡ false
      → (ps : List Peer) × ((get_by_key o login signature s).0 ≡ ok ps) × In p ps
  get_by_key_complete login signature id {p} h l g found same alive =
      get_by_key_listed login signature id
        (subst (λ (j : Text). IsListed s.logins j id) same (h.directory.listed id p found)) l g
        found alive
