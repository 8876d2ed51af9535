-- ===== src/Database/Calls.antt =====
-- The calls of the interface `Store` on `dbStore`, and a run of them one after the other.
use muninn.Prelude.{List, [], ◌∷◌}
use muninn.Text.{Text}
use muninn.Memory.Calls.{Call}
use muninn.Action.{Reply, done, failed, panicked}
use muninn.Database.{Database, Server}
use muninn.Database.Peers
use muninn.Database.Ranking
use muninn.Database.Chunks
use muninn.Database.Reports
use muninn.Database.Signals

-- The state behind a call.
abbrev pub step : Server → Text → Call → Database → Database
step w driver (Call.upsert req) db = (Peers.upsert w req db).1
step w driver (Call.refresh req) db = (Peers.refresh w req db).1
step w driver (Call.get id) db = (Peers.get_peer w id db).1
step w driver (Call.get_by_key login signature) db = (Peers.get_by_key w login signature db).1
step w driver (Call.delete id) db = (Peers.delete w id db).1
step w driver Call.list db = (Peers.list w db).1
step w driver (Call.heartbeat id ttl) db = (Peers.heartbeat w id ttl db).1
step w driver (Call.set_chunk_hash file_id i req) db = (Chunks.set_chunk_hash w file_id i req db).1
step w driver (Call.get_best_peers n) db = (Ranking.get_best_peers w n db).1
step w driver (Call.report_chunk id req) db = (Reports.report_chunk w id req db).1
step w driver (Call.confirm_chunk req) db = (Reports.confirm_chunk w driver req db).1
step w driver (Call.read_chunk req) db = (Reports.read_chunk w driver req db).1
step w driver (Call.get_chunks_by_recipient id from) db =
    (Chunks.get_chunks_by_recipient w id from db).1
step w driver (Call.get_chunks_by_file_id id) db = (Chunks.get_chunks_by_file_id w id db).1
step w driver (Call.get_best_thick_peers n) db = (Ranking.get_best_thick_peers w n db).1
step w driver (Call.set_signal id sig) db = (Signals.set_signal w id sig db).1
step w driver (Call.poll_signals id) db = (Signals.poll_signals w id db).1
step w driver Call.delete_expired_chunks db = (Chunks.delete_expired_chunks w driver db).1

abbrev pub outcome_of : {A : Type 0} → Reply A → Reply (Unit {0})
outcome_of (done a) = done tt
outcome_of (failed e) = failed e
outcome_of panicked = panicked

-- How a call ends, less the value.
abbrev pub outcome : Server → Text → Call → Database → Reply (Unit {0})
outcome w driver (Call.upsert req) db = outcome_of (Peers.upsert w req db).0
outcome w driver (Call.refresh req) db = outcome_of (Peers.refresh w req db).0
outcome w driver (Call.get id) db = outcome_of (Peers.get_peer w id db).0
outcome w driver (Call.get_by_key login signature) db =
    outcome_of (Peers.get_by_key w login signature db).0
outcome w driver (Call.delete id) db = outcome_of (Peers.delete w id db).0
outcome w driver Call.list db = outcome_of (Peers.list w db).0
outcome w driver (Call.heartbeat id ttl) db = outcome_of (Peers.heartbeat w id ttl db).0
outcome w driver (Call.set_chunk_hash file_id i req) db =
    outcome_of (Chunks.set_chunk_hash w file_id i req db).0
outcome w driver (Call.get_best_peers n) db = outcome_of (Ranking.get_best_peers w n db).0
outcome w driver (Call.report_chunk id req) db = outcome_of (Reports.report_chunk w id req db).0
outcome w driver (Call.confirm_chunk req) db = outcome_of (Reports.confirm_chunk w driver req db).0
outcome w driver (Call.read_chunk req) db = outcome_of (Reports.read_chunk w driver req db).0
outcome w driver (Call.get_chunks_by_recipient id from) db =
    outcome_of (Chunks.get_chunks_by_recipient w id from db).0
outcome w driver (Call.get_chunks_by_file_id id) db =
    outcome_of (Chunks.get_chunks_by_file_id w id db).0
outcome w driver (Call.get_best_thick_peers n) db =
    outcome_of (Ranking.get_best_thick_peers w n db).0
outcome w driver (Call.set_signal id sig) db = outcome_of (Signals.set_signal w id sig db).0
outcome w driver (Call.poll_signals id) db = outcome_of (Signals.poll_signals w id db).0
outcome w driver Call.delete_expired_chunks db =
    outcome_of (Chunks.delete_expired_chunks w driver db).0

abbrev pub Run : Type 0
Run = List (Server × Call)

unfoldable pub serve : Text → Run → Database → Database
serve driver [] db = db
serve driver ((w, c) ∷ run) db = serve driver run (step w driver c db)
