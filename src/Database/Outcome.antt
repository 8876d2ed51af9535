-- ===== src/Database/Outcome.antt =====
-- The outcomes of the statements and of the two lookups that the methods of `dbStore` share.
pub mod Peers
pub mod Chunks
pub mod Reports
pub mod Ranking
use muninn.Prelude.{
  ℕ, ◌≡◌, refl, Bool, true, false, not, Option, none, some, List, [], ◌∷◌, arith, In, here, there,
  In-keep, keep, map, String, if◌then◌else◌, ap, sym, ◌∙◌,
}
use muninn.Prelude.Int.{ℤ}
use muninn.Text.{Text, trim_space}
use muninn.Text.Split.{split2}
use muninn.Model.{Peer}
use muninn.Score.{Error}
use muninn.Memory.{is_expired}
use muninn.Memory.Peers.{non_empty}
use muninn.Action.{
  Reply, done, failed, panicked, Action, ◌>>=◌, ◌>>◌, or_panic, replace_error, replace_reply, wrap,
  wrap_reply,
}
use muninn.Action.Rules.{
  Then, after_call, after_check, after_reject, after_require, after_or_panic, after_get, after_pure,
  after_last_require, after_replace_error, after_wrap,
}
use muninn.Database.{
  Database, PeerRow, Server, statement, bare_statement, failure, bare_failure, first_row, scan_peer,
  has_id, get_peer_by_id, has_key, live_rows, get_peer_by_key,
}

module _ {ℓ} {B : Type 0} (Q : Reply B × Database → Type ℓ) (w : Server) where
  pub after_statement :
      (i : ℕ) (context : String) (k : Action Database B) (db : Database)
      → ((e : Error) → Q (failed e, db))
      → Q (k db)
      → Q ((statement w i context >> k) db)
  unfolding statement
  after_statement i context k db fail go = after_check Q _ k db (λ e _. fail e) (λ _. go)

  pub after_bare_statement :
      (i : ℕ) (k : Action Database B) (db : Database)
      → ((e : Error) → Q (failed e, db))
      → Q (k db)
      → Q ((bare_statement w i >> k) db)
  unfolding bare_statement
  after_bare_statement i k db fail go = after_check Q _ k db (λ e _. fail e) (λ _. go)

pub first_row-In {ℓ} : {A : Type ℓ} (xs : List A) {x : A} → first_row xs ≡ some x → In x xs
first_row-In [] h = cc
first_row-In (y ∷ xs) h = here (ground arith)

-- A row of the table whose peer is alive.
pub record IsFound (w : Server) (i : ℕ) (test : PeerRow → Bool) (db : Database) (p : Peer)
    : Type 0 where
  pub row : PeerRow
  pub listed : In row (w.peer_order i db.peers)
  pub passes : test row ≡ true
  pub scanned : p ≡ scan_peer row
  pub alive : is_expired p w.outside.now ≡ false

module _ (w : Server) (i : ℕ) where
  IsFound-row :
      (test : PeerRow → Bool) (db : Database) (row : PeerRow)
      → first_row (keep test (w.peer_order i db.peers)) ≡ some row
      → is_expired (scan_peer row) w.outside.now ≡ false
      → IsFound w i test db (scan_peer row)
  IsFound-row test db row h alive =
      let (listed, passes) = In-keep test (w.peer_order i db.peers) (first_row-In _ h) in
      record { row = row; listed = listed; passes = passes; scanned = refl; alive = alive }

  pub get_peer_by_id_outcome {ℓ} :
      (id : Text) (db : Database) (Q : Reply Peer × Database → Type ℓ)
      → ((e : Error) → Q (failed e, db))
      → ((p : Peer) → IsFound w i (has_id id) db p → Q (done p, db))
      → Q (get_peer_by_id w i id db)
  unfolding get_peer_by_id
  get_peer_by_id_outcome id db Q fail go =
      after_reject Q _ _ db (λ _. fail _)
        λ _. after_get Q _ db (
          after_statement Q w i _ _ db fail (
            after_require Q _ _ db (λ _. fail _)
              λ row h.
                after_reject Q _ _ db (λ _. fail _)
                  λ alive.
                    after_pure Q _ db
                      (go (scan_peer row) (IsFound-row (has_id id) db row h alive))))

  In-map :
      {p : Peer} (rows : List PeerRow)
      → In p (map scan_peer rows)
      → (row : PeerRow) × In row rows × (p ≡ scan_peer row)
  In-map [] m = elim m [ ]
  In-map (row ∷ rows) (here e) = (row, here refl, e)
  In-map (row ∷ rows) (there m) = let (r, listed, e) = In-map rows m in (r, there listed, e)

  alive_of_not : (b : Bool) → not b ≡ true → b ≡ false
  alive_of_not b h = ground arith

  pub live_rows-IsFound :
      (test : PeerRow → Bool) (db : Database) {p : Peer}
      → In p (live_rows w.outside.now (keep test (w.peer_order i db.peers)))
      → IsFound w i test db p
  live_rows-IsFound test db {p} m =
      let (scanned, alive) =
        In-keep (λ p. not (is_expired p w.outside.now))
          (map scan_peer (keep test (w.peer_order i db.peers))) m in
      let (row, kept, e) = In-map (keep test (w.peer_order i db.peers)) scanned in
      let (listed, passes) = In-keep test (w.peer_order i db.peers) kept in
      record {
        row = row;
        listed = listed;
        passes = passes;
        scanned = e;
        alive = alive_of_not _ alive;
      }

  pub get_peer_by_key_outcome {ℓ} :
      (key : Text) (db : Database) (Q : Reply (List Peer) × Database → Type ℓ)
      → ((e : Error) → Q (failed e, db))
      → Q (panicked, db)
      → ((login signature : Text) (ps : List Peer)
          → split2 b':' (trim_space key) ≡ some (login, signature)
          → non_empty
              (live_rows w.outside.now (keep (has_key login signature) (w.peer_order i db.peers)))
            ≡ some ps
          → Q (done ps, db))
      → Q (get_peer_by_key w i key db)
  unfolding get_peer_by_key
  get_peer_by_key_outcome key db Q fail panic go =
      after_reject Q _ _ db (λ _. fail _)
        λ _.
          after_or_panic Q _ _ db (λ _. panic)
            λ parts split. after_statement Q w i _ _ db fail (
              after_get Q _ db (
                after_last_require Q _ db (λ _. fail _)
                  λ ps live. go parts.0 parts.1 ps split live))

module _ {ℓ} {B : Type 0} (Q : Reply B × Database → Type ℓ) (w : Server) (i : ℕ) (id : Text)
    (db : Database) (k : Peer → Action Database B) where
  pub after_peer_by_id :
      (e : Error)
      → Q (failed e, db)
      → ((p : Peer) → IsFound w i (has_id id) db p → Q (k p db))
      → Q ((replace_error e (get_peer_by_id w i id) >>= k) db)
  after_peer_by_id e fail go = after_call Q _ k db (
      after_replace_error (Then Q k) e _ db (
        get_peer_by_id_outcome w i id db (λ r. Then Q k (replace_reply e r.0, r.1)) (λ _. fail) go))

  pub after_wrapped_peer_by_id :
      (context : Text)
      → ((e : Error) → Q (failed e, db))
      → ((p : Peer) → IsFound w i (has_id id) db p → Q (k p db))
      → Q ((wrap context (get_peer_by_id w i id) >>= k) db)
  after_wrapped_peer_by_id context fail go = after_call Q _ k db (
      after_wrap (Then Q k) context _ db (
        get_peer_by_id_outcome w i id db (λ r. Then Q k (wrap_reply context r.0, r.1)) (λ _. fail _)
          go))

-- The peer that a method takes for a key: the first one.
abbrev pub IsFoundByKey : Server → ℕ → Text → Database → Peer → Type 0
IsFoundByKey w i key db p =
    (login signature : Text) × (split2 b':' (trim_space key) ≡ some (login, signature))
    × IsFound w i (has_key login signature) db p

non_empty_first :
    (ps qs : List Peer) {p : Peer} → non_empty ps ≡ some qs → first_row qs ≡ some p → In p ps
non_empty_first [] qs h e = cc
non_empty_first (q ∷ ps) qs h e = here (ground arith)

module _ {ℓ} {B : Type 0} (Q : Reply B × Database → Type ℓ) (w : Server) (i : ℕ) (key : Text)
    (db : Database) where
  -- The calls for the peer of a key, `f` being what is done to the error of the lookup.
  after_first :
      (f : Reply (List Peer) → Reply (List Peer)) (k : Peer → Action Database B)
      → ((ps : List Peer) → f (done ps) ≡ done ps)
      → ((e : Error) → Then Q (λ ps. or_panic (first_row ps) >>= k) (f (failed e), db))
      → Q (panicked, db)
      → f panicked ≡ panicked
      → ((p : Peer) → IsFoundByKey w i key db p → Q (k p db))
      → Then Q
          (λ ps. or_panic (first_row ps) >>= k)
          (f (get_peer_by_key w i key db).0, (get_peer_by_key w i key db).1)
  after_first f k same fail panic stays go =
      get_peer_by_key_outcome w i key db
        (λ r. Then Q (λ ps. or_panic (first_row ps) >>= k) (f r.0, r.1)) fail (rw stays panic)
        λ login signature ps split live. rw same (
          after_or_panic Q _ k db (λ _. panic)
            λ p first. go p (
              login,
              signature,
              split,
              live_rows-IsFound w i (has_key login signature) db (non_empty_first _ ps live first),
            ))

  pub after_peer_by_key :
      (e : Error) (k : Peer → Action Database B)
      → Q (failed e, db)
      → Q (panicked, db)
      → ((p : Peer) → IsFoundByKey w i key db p → Q (k p db))
      → Q ((replace_error e (get_peer_by_key w i key) >>= λ ps. or_panic (first_row ps) >>= k) db)
  after_peer_by_key e k fail panic go = after_call Q _ _ db (
      after_replace_error (Then Q (λ ps. or_panic (first_row ps) >>= k)) e _ db
        (after_first (replace_reply e) k (λ ps. refl) (λ _. fail) panic refl go))

  pub after_wrapped_peer_by_key :
      (context : Text) (k : Peer → Action Database B)
      → ((e : Error) → Q (failed e, db))
      → Q (panicked, db)
      → ((p : Peer) → IsFoundByKey w i key db p → Q (k p db))
      → Q ((wrap context (get_peer_by_key w i key) >>= λ ps. or_panic (first_row ps) >>= k) db)
  after_wrapped_peer_by_key context k fail panic go = after_call Q _ _ db (
      after_wrap (Then Q (λ ps. or_panic (first_row ps) >>= k)) context _ db
        (after_first (wrap_reply context) k (λ ps. refl) (λ _. fail _) panic refl go))
