-- ===== src/Handler/Peers.antt =====
-- The handlers on peers, rankings and signals: Register, Refresh, Get, GetByKey, Delete, List,
-- GetBestPeers, GetBestThickPeers, Heartbeat, SetSignal, PollSignals and Health. A list that Go
-- writes as `[]` where it is nil is the empty list here.
use muninn.Prelude.{Option, []}
use muninn.Prelude.Int.{ℤ}
use muninn.Text.{Text, codes, is_empty}
use muninn.Model.{RegisterRequest, RefreshRequest, Signal}
use muninn.Outside.{Outside}
use muninn.Handler.{
  Body, Handle, respond, call, refuse_if, with_body, with_value, parse_n, write_json, no_content,
}
use muninn.Handler.Interface.{Store}

module _ {S : Type 0} (st : Store S) (o : Outside) where
  unfoldable pub handle_register : Option RegisterRequest → Handle S
  handle_register body =
      with_body body λ req. call (st.upsert o req) (λ _. write_json (Body.message []))

  unfoldable pub handle_refresh : Option RefreshRequest → Handle S
  handle_refresh body =
      with_body body λ req. call (st.refresh o req) (λ _. write_json (Body.message []))

  unfoldable pub handle_get : Text → Handle S
  handle_get id =
      refuse_if (is_empty id) (codes "peer id required")
        (call (st.get o id) (λ p. write_json (Body.peer p)))

  unfoldable pub handle_get_by_key : Text → Text → Handle S
  handle_get_by_key login signature = refuse_if (is_empty login) (codes "login required") (
      refuse_if (is_empty signature) (codes "signature required")
        (call (st.get_by_key o login signature) (λ ps. write_json (Body.peers ps))))

  unfoldable pub handle_delete : Text → Handle S
  handle_delete id =
      refuse_if (is_empty id) (codes "peer id required") (call (st.delete o id) (λ _. no_content))

  unfoldable pub handle_list : Handle S
  handle_list = call (st.list o) (λ ps. write_json (Body.peers ps))

  unfoldable pub handle_get_best_peers : Text → Handle S
  handle_get_best_peers n =
      with_value (parse_n n) (codes "invalid n")
        λ n. call (st.get_best_peers o n) (λ ps. write_json (Body.peers ps))

  unfoldable pub handle_get_best_thick_peers : Text → Handle S
  handle_get_best_thick_peers n =
      with_value (parse_n n) (codes "invalid n")
        λ n. call (st.get_best_thick_peers o n) (λ ps. write_json (Body.peers ps))

  -- The error of the decoder is dropped: `ttl_seconds` is what the field holds after it.
  unfoldable pub handle_heartbeat : Text → ℤ → Handle S
  handle_heartbeat id ttl_seconds =
      refuse_if (is_empty id) (codes "peer id required")
        (call (st.heartbeat o id ttl_seconds) (λ p. write_json (Body.peer p)))

  unfoldable pub handle_set_signal : Text → Option Signal → Handle S
  handle_set_signal id body =
      refuse_if (is_empty id) (codes "peer id required")
        (with_body body λ sig. call (st.set_signal o id sig) (λ _. no_content))

  unfoldable pub handle_poll_signals : Text → Handle S
  handle_poll_signals id =
      refuse_if (is_empty id) (codes "peer id required")
        (call (st.poll_signals o id) (λ sigs. write_json (Body.signals sigs)))

unfoldable pub health : {S : Type 0} → Handle S
health = respond (write_json Body.status_ok)
