-- ===== src/Handler/Requests.antt =====
-- A request to the server as one type, by the handler that the routes of internal/api/server.go
-- give it to, with the values that the handler takes from the path, the query and the body.
use muninn.Prelude.{Option}
use muninn.Prelude.Int.{ℤ}
use muninn.Text.{Text}
use muninn.Model.{
  RegisterRequest, RefreshRequest, RegisterChunkRequest, ChunkReportRequest, ConfirmChunkRequest,
  ReadChunkRequest, Signal,
}
use muninn.Outside.{Outside}
use muninn.Handler.{Handle}
use muninn.Handler.Interface.{Store}
use muninn.Handler.Peers
use muninn.Handler.Peers.{
  handle_register, handle_refresh, handle_get, handle_get_by_key, handle_delete, handle_list,
  handle_get_best_peers, handle_get_best_thick_peers, handle_heartbeat, handle_set_signal,
  handle_poll_signals,
}
use muninn.Handler.Chunks.{
  handle_register_chunk, handle_report_chunk, handle_confirm_chunk, handle_read_chunk,
  handle_get_chunks_by_recipient, handle_get_chunks_by_file_id,
}

-- The requests whose handler calls the store at most once.
pub data Request : Type 0 where
  register : Option RegisterRequest → Request
  refresh : Option RefreshRequest → Request
  get : Text → Request
  get_by_key : Text → Text → Request
  delete : Text → Request
  list : Request
  get_best_peers : Text → Request
  get_best_thick_peers : Text → Request
  heartbeat : Text → ℤ → Request
  set_signal : Text → Option Signal → Request
  poll_signals : Text → Request
  health : Request
  register_chunk : Text → Text → Option RegisterChunkRequest → Request
  report_chunk : Text → Option ChunkReportRequest → Request
  confirm_chunk : Option ConfirmChunkRequest → Request
  read_chunk : Option ReadChunkRequest → Request
  get_chunks_by_recipient : Text → Text → Request
  get_chunks_by_file_id : Text → Request

abbrev pub handle : {S : Type 0} → Store S → Outside → Request → Handle S
handle st o (register body) = handle_register st o body
handle st o (refresh body) = handle_refresh st o body
handle st o (get id) = handle_get st o id
handle st o (get_by_key login signature) = handle_get_by_key st o login signature
handle st o (delete id) = handle_delete st o id
handle st o list = handle_list st o
handle st o (get_best_peers n) = handle_get_best_peers st o n
handle st o (get_best_thick_peers n) = handle_get_best_thick_peers st o n
handle st o (heartbeat id ttl_seconds) = handle_heartbeat st o id ttl_seconds
handle st o (set_signal id body) = handle_set_signal st o id body
handle st o (poll_signals id) = handle_poll_signals st o id
handle st o health = Peers.health
handle st o (register_chunk file_id index body) = handle_register_chunk st o file_id index body
handle st o (report_chunk id body) = handle_report_chunk st o id body
handle st o (confirm_chunk body) = handle_confirm_chunk st o body
handle st o (read_chunk body) = handle_read_chunk st o body
handle st o (get_chunks_by_recipient id date_from) =
    handle_get_chunks_by_recipient st o id date_from
handle st o (get_chunks_by_file_id id) = handle_get_chunks_by_file_id st o id
