-- ===== src/Tests/Reported.antt =====
-- An example of a report over the database.
use muninn.Prelude.{◌≡◌, refl, true}
use muninn.Prelude.Int.{pos, wrap, mul64, ◌+ℤ◌, ◌-ℤ◌, ◌*ℤ◌}
use muninn.Text.{codes, trim_space, to_lower}
use muninn.Text.Decimal.{itoa}
use muninn.Model.{ChunkReportResult}
use muninn.Hash.{normalize_hash, valid_hash_format}
use muninn.Sign.{verify, decode_public_key, reported_payload}
use muninn.Action.{
  done, ◌>>=◌, continue, pure, reject_if, require, check, get, modify, replace_error,
}
use muninn.Action
use muninn.Memory.{is_expired, duration_between, verify_peer_signature}
use muninn.Database.{statement, update_where, get_peer_by_id, scan_peer}
use muninn.Database.Reports.{report_chunk}
use muninn.Database.Guards.Reported.{IsReported, report_chunk-IsReported}
use muninn.Tests.{report_request, first_hash}
use muninn.Tests.Database.{server, server-IsFairServer, sample_database, alice_row}

abbrev reported : ChunkReportResult
reported = record {
  valid = true;
  expected_hash = first_hash;
  reported_hash = first_hash;
  delta = pos 1;
  peer = scan_peer (record alice_row { quality_score = pos 1001; quality_valid = pos 1 });
}

report_accepted :
    (report_chunk (server 104) (codes "alice") report_request sample_database).0 ≡ done reported
unfolding report_chunk statement get_peer_by_id ◌>>=◌ continue pure reject_if require check get
    modify replace_error Action.wrap verify_peer_signature verify decode_public_key is_expired
    duration_between trim_space normalize_hash update_where to_lower valid_hash_format itoa
    reported_payload mul64 wrap ◌+ℤ◌ ◌-ℤ◌ ◌*ℤ◌
report_accepted = refl

report_chunk-IsReported_example :
    IsReported
      (server 104)
      (trim_space (codes "alice"))
      report_request
      sample_database
      reported
      (report_chunk (server 104) (codes "alice") report_request sample_database).1
report_chunk-IsReported_example =
    report_chunk-IsReported (server 104) (codes "alice") report_request sample_database reported
      (server-IsFairServer 104) report_accepted
