-- ===== src/Tests/Confirmed.antt =====
-- An example of a confirmation over the database.
use muninn.Prelude.{true}
use muninn.Prelude.Int.{pos}
use muninn.Text.{codes}
use muninn.Model.{ConfirmChunkRequest, ConfirmChunkResult}
use muninn.Action
use muninn.Database.{scan_peer}
use muninn.Tests.{first_hash}
use muninn.Tests.Database.{alice_row}

abbrev confirm_request : ConfirmChunkRequest
confirm_request = record {
  recipient_id = codes "bo:key";
  file_id = codes "f";
  chunk_index = pos 0;
  hash = first_hash;
  signature = codes "sig";
}

abbrev confirmation : ConfirmChunkResult
confirmation = record {
  valid = true;
  expected_hash = first_hash;
  confirmed_hash = first_hash;
  delta = pos 1;
  peer = scan_peer (record alice_row { quality_score = pos 1001; quality_valid = pos 1 });
}
