-- ===== src/Tests/Lookup.antt =====
-- Examples of peers that are looked up in the database.
use muninn.Prelude.{◌≡◌, refl, inl, keep, arith, List, false, if◌then◌else◌}
use muninn.Prelude.Int.{eqb_ℤ, pos, ◌+ℤ◌, ℤ}
use muninn.Text.{codes, trim_space, Text, is_empty}
use muninn.Model.{Peer, RegisterRequest, login_key, thin}
use muninn.Score.{not_found}
use muninn.Hash.{valid_hash_format}
use muninn.Action.{done, failed, ◌>>=◌, continue, pure, reject_if, check, get, modify}
use muninn.Memory.{is_expired}
use muninn.Database.{statement, live_rows}
use muninn.Database.Peers.{upsert, get_peer}
use muninn.Database.Ranking.{get_best_peers}
use muninn.Database.Rows.{IsPeerRow}
use muninn.Database.Lookup.Best.{IsTop, get_best_peers-IsTop}
use muninn.Database.Lookup.Scanned.{IsRegisteredPeer}
use muninn.Database.Lookup.Registered.{get_peer-registered}
use muninn.Database.Invariant.{IsWellFormed}
use muninn.Tests.{register_alice, outside}
use muninn.Tests.Database.{server, server-IsFairServer, sample_database, alice_row}

sample_row-IsPeerRow :
    (id key login : Text) (last_seen : ℤ)
    → is_empty id ≡ false
    → key ≡ login_key login (codes "key")
    → IsPeerRow (record alice_row { id = id; key = key; login = login; last_seen = last_seen })
unfolding ◌+ℤ◌
sample_row-IsPeerRow id key login last_seen named keyed = record {
  named = named;
  keyed = keyed;
  ttl = ground arith;
  balanced = refl;
}

pub sample_database-IsWellFormed : IsWellFormed sample_database
unfolding valid_hash_format
sample_database-IsWellFormed = record {
  unique = ((refl, (refl, tt)), ((refl, tt), (tt, tt)));
  peer_rows = (
    sample_row-IsPeerRow (codes "alice") (codes "al:key") (codes "al") (pos 100) refl refl,
    (
      sample_row-IsPeerRow (codes "bob") (codes "bo:key") (codes "bo") (pos 100) refl refl,
      (sample_row-IsPeerRow (codes "carol") (codes "al:key") (codes "al") (pos 0) refl refl, tt),
    ),
  );
  chunk_rows = (
    record {
      file = refl;
      index = refl;
      hash = refl;
      sender = refl;
      holder = refl;
      flags = (inl refl, inl refl, inl refl);
      ttl = ground arith;
    },
    tt,
  );
}

get_best_peers-IsTop_example :
    (ps : List Peer) × (get_best_peers (server 104) (pos 2) sample_database
      ≡ (done ps, sample_database))
    × IsTop
        (live_rows
          (server 104).outside.now
          (keep (λ row. eqb_ℤ row.is_fake (pos 0)) sample_database.peers))
        2
        ps
get_best_peers-IsTop_example =
    get_best_peers-IsTop (server 104) sample_database (pos 2) (server-IsFairServer 104) (λ i. refl)
      sample_database-IsWellFormed

-- Carol registers again, with another login.
abbrev register_carol : RegisterRequest
register_carol = record register_alice { id = codes "carol "; login = codes "ca"; peer_flag = thin }

carol_registered : (upsert (server 104) register_carol sample_database).0 ≡ done tt
unfolding upsert statement ◌>>=◌ continue pure reject_if check get modify trim_space
carol_registered = refl

get_peer-registered_example :
    (p : Peer) × IsRegisteredPeer (outside 104) register_carol sample_database p
    × ((get_peer
          (server 105)
          register_carol.id
          (upsert (server 104) register_carol sample_database).1).0
        ≡ (if is_expired p (server 105).outside.now then failed not_found else done p))
get_peer-registered_example =
    get_peer-registered (server 104) (server 105) register_carol sample_database
      (server-IsFairServer 104) (server-IsFairServer 105) (λ i. refl) sample_database-IsWellFormed
      carol_registered
