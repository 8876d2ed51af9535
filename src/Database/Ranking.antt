-- ===== src/Database/Ranking.antt =====
-- `GetBestPeers` and `GetBestThickPeers` of `dbStore`. The sort is the one of Memory/Ranking: both
-- stores compare by `EffectiveScore`.
use muninn.Prelude.{Bool, ◌&&◌, ◌||◌, List, [], if◌then◌else◌, keep, String}
use muninn.Prelude.Int.{ℤ, pos, leb_ℤ}
use muninn.Text.{text_eq}
use muninn.Model.{Peer, thick, very_thick}
use muninn.Memory.Ranking.{sort, first}
use muninn.Action.{Action, pure, ◌>>=◌, ◌>>◌, get}
use muninn.Database.{Database, PeerRow, Server, statement}
use muninn.Database.Peers.{look_up, is_real}

-- `peer.PeerFlag = model.PeerFlag(flag)`, the flag of the row.
abbrev pub with_flag : PeerRow → Peer → Peer
with_flag row p = record p { peer_flag = row.peer_flag }

-- The SELECT of the candidates, the loop that looks them up and the sort, for a positive n.
unfoldable pub ranked :
    Server → String → (PeerRow → Bool) → (PeerRow → Peer → Peer) → ℤ → Action Database (List Peer)
ranked w context test f n = do
  statement w 0 context
  db ← get
  pure (first n (sort (look_up w f 1 (keep test (w.peer_order 0 db.peers)) db)))

unfoldable pub get_best_peers : Server → ℤ → Action Database (List Peer)
get_best_peers w n db =
    if leb_ℤ n (pos 0) then pure [] db else ranked w "get best peers: " is_real with_flag n db

abbrev pub is_real_thick : PeerRow → Bool
is_real_thick row = (text_eq row.peer_flag thick || text_eq row.peer_flag very_thick) && is_real row

unfoldable pub get_best_thick_peers : Server → ℤ → Action Database (List Peer)
get_best_thick_peers w n db =
    if leb_ℤ n (pos 0)
    then pure [] db
    else ranked w "get best thick peers: " is_real_thick (λ row p. p) n db
