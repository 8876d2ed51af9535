-- ===== src/Handler/Chunks.antt =====
-- The handlers on chunks: RegisterChunk, ReportChunk, ConfirmChunk, ReadChunk,
-- GetChunksByRecipient and GetChunksByFileID.
use muninn.Prelude.{Option, none, some, Bool, not, ◌||◌, if◌then◌else◌}
use muninn.Prelude.Int.{ℤ, pos, ltb_ℤ}
use muninn.Text.{Text, codes, is_empty}
use muninn.Text.Decimal.{atoi}
use muninn.Model.{RegisterChunkRequest, ChunkReportRequest, ConfirmChunkRequest, ReadChunkRequest}
use muninn.Outside.{Outside}
use muninn.Handler.{Body, Handle, call, refuse_if, with_body, with_value, write_json, no_content}
use muninn.Handler.Interface.{Store}

abbrev natural : ℤ × Bool → Option ℤ
natural (i, good) = if not good || ltb_ℤ i (pos 0) then none else some i

-- The chunk's index in the path.
unfoldable pub parse_index : Text → Option ℤ
parse_index i = natural (atoi i)

abbrev or_zero : ℤ × Bool → ℤ
or_zero (n, good) = if good then n else pos 0

-- The query value `date_from`: 0 if it is missing or no number. `ParseInt(df, 10, 64)` reads what
-- `Atoi` reads.
unfoldable pub parse_date_from : Text → ℤ
parse_date_from df = if is_empty df then pos 0 else or_zero (atoi df)

module _ {S : Type 0} (st : Store S) (o : Outside) where
  unfoldable pub handle_register_chunk : Text → Text → Option RegisterChunkRequest → Handle S
  handle_register_chunk file_id index body =
      with_value (parse_index index) (codes "invalid chunk index") λ index.
        with_body body λ req. call (st.set_chunk_hash o file_id index req) (λ _. no_content)

  unfoldable pub handle_report_chunk : Text → Option ChunkReportRequest → Handle S
  handle_report_chunk source_id body = refuse_if (is_empty source_id) (codes "peer id required") (
      with_body body
        λ req. call (st.report_chunk o source_id req) (λ r. write_json (Body.report r)))

  unfoldable pub handle_confirm_chunk : Option ConfirmChunkRequest → Handle S
  handle_confirm_chunk body =
      with_body body λ req. call (st.confirm_chunk o req) (λ r. write_json (Body.confirmation r))

  unfoldable pub handle_read_chunk : Option ReadChunkRequest → Handle S
  handle_read_chunk body =
      with_body body λ req. call (st.read_chunk o req) (λ r. write_json (Body.reading r))

  unfoldable pub handle_get_chunks_by_recipient : Text → Text → Handle S
  handle_get_chunks_by_recipient recipient_id date_from =
      refuse_if (is_empty recipient_id) (codes "recipient_id required") (
        call (st.get_chunks_by_recipient o recipient_id (parse_date_from date_from))
          (λ chunks. write_json (Body.chunks chunks)))

  unfoldable pub handle_get_chunks_by_file_id : Text → Handle S
  handle_get_chunks_by_file_id file_id =
      refuse_if (is_empty file_id) (codes "file_id required")
        (call (st.get_chunks_by_file_id o file_id) (λ chunks. write_json (Body.chunks chunks)))
