-- ===== src/Signalling.antt =====
-- internal/webrtc/handler.go: the connections of the peers, and the relay of signals over them or,
-- where a peer has none or the write fails, through the queue of the store. A connection is a
-- number. What arrives on a connection is the outcome of decoding it; a handler is one step, as if
-- no other one overlapped with it.
pub mod Relay
pub mod Connections
use muninn.Prelude.{
  ℕ, suc, Bool, true, false, ◌||◌, Option, none, some, List, [], ◌∷◌, ◌++◌, if◌then◌else◌,
}
use muninn.Text.{Text, codes, text_eq, is_empty}
use muninn.Model.{Signal}
use muninn.Outside.{Outside}
use muninn.Score.{Error}
use muninn.Assoc.{Assoc, find, put, remove}
use muninn.Exec.{Result, ok, err}
use muninn.Handler.{error_text}
use muninn.Handler.Interface.{Store}

pub record RpcRequest : Type 0 where
  pub id : Text
  pub method : Text
  pub params : Text

pub record SignalRelayRequest : Type 0 where
  pub target_id : Text
  pub from : Text
  pub type : Text
  pub body : Text

pub record ConnectToPeerRequest : Type 0 where
  pub target_id : Text
  pub offer : Text

-- What is written on a connection: a notification `incoming_signal`, or a response.
pub data Frame : Type 0 where
  incoming : Signal → Frame
  result : Text → Frame
  error : Text → Text → Frame

-- What a step takes from outside: whether its i-th write on a connection succeeds, and the JSON
-- decoder for the parameters of a request.
pub record Wire : Type 0 where
  pub delivers : ℕ → ℕ → Bool
  pub relay_params : Text → Option SignalRelayRequest
  pub connect_params : Text → Option ConnectToPeerRequest

-- `sent` lists the frames whose write succeeded, each with its connection.
pub record Hub (S : Type 0) : Type 0 where
  pub store : S
  pub conns : Assoc ℕ
  pub sent : List (ℕ × Frame)

abbrev pub signal_relay : Text
signal_relay = codes "signal_relay"

abbrev pub connect_to_peer : Text
connect_to_peer = codes "connect_to_peer"

abbrev pub polled : Result (List Signal) → List Signal
polled (ok sigs) = sigs
polled (err e) = []

module _ {S : Type 0} (w : Wire) where
  -- `conn.WriteMessage`, the i-th write of the step: whether it succeeded, and the state.
  unfoldable pub write : ℕ → ℕ → Frame → Hub S → Bool × Hub S
  write i c frame h =
      if w.delivers i c then (true, record h { sent = h.sent ++ (c, frame) ∷ [] }) else (false, h)

  abbrev pub write_to : ℕ → Option ℕ → Frame → Hub S → Bool × Hub S
  write_to i none frame h = (false, h)
  write_to i (some c) frame h = write i c frame h

  unfoldable pub send_notification : ℕ → Text → Signal → Hub S → Bool × Hub S
  send_notification i peer_id sig h = write_to i (find peer_id h.conns) (Frame.incoming sig) h

  -- `sendResult` and `sendError` drop the outcome of the write.
  unfoldable pub send_result : ℕ → Text → Text → Hub S → Hub S
  send_result i peer_id req_id h = (write_to i (find peer_id h.conns) (Frame.result req_id) h).1

  unfoldable pub send_error : ℕ → Text → Text → Text → Hub S → Hub S
  send_error i peer_id req_id msg h =
      (write_to i (find peer_id h.conns) (Frame.error req_id msg) h).1

  -- The loop over the polled signals, whose writes can fail unnoticed.
  unfoldable pub write_all : ℕ → ℕ → List Signal → Hub S → Hub S
  write_all i c [] h = h
  write_all i c (sig ∷ sigs) h = write_all (suc i) c sigs (write i c (Frame.incoming sig) h).1

  -- The answer to the sender behind `SetSignal`.
  abbrev pub after_store : Text → Text → Result (Unit {0}) → Hub S → Hub S
  after_store from req_id (ok u) h = send_result 1 from req_id h
  after_store from req_id (err e) h =
      send_error 1 from req_id (codes "store signal: " ++ error_text e) h

  module _ (st : Store S) (o : Outside) where
    abbrev pub queue : Text → Text → Text → Signal → Hub S → Hub S
    queue from req_id target sig h =
        let (r, s) = st.set_signal o target sig h.store in
        after_store from req_id r (record h { store = s })

    abbrev pub after_notification : Text → Text → Text → Signal → Bool × Hub S → Hub S
    after_notification from req_id target sig (true, h) = send_result 1 from req_id h
    after_notification from req_id target sig (false, h) = queue from req_id target sig h

    -- The part that both methods share: notify the target, else queue the signal; answer the
    -- sender.
    unfoldable pub deliver : Text → Text → Text → Signal → Hub S → Hub S
    deliver from req_id target sig h =
        after_notification from req_id target sig (send_notification 0 target sig h)

    abbrev pub relay_with : Text → RpcRequest → Option SignalRelayRequest → Hub S → Hub S
    relay_with from req none h = send_error 0 from req.id (codes "invalid signal_relay params") h
    relay_with from req (some p) h =
        deliver from req.id p.target_id (record { from = p.from; type = p.type; body = p.body }) h

    unfoldable pub handle_signal_relay : Text → RpcRequest → Hub S → Hub S
    handle_signal_relay from req h = relay_with from req (w.relay_params req.params) h

    abbrev pub connect_with : Text → RpcRequest → Option ConnectToPeerRequest → Hub S → Hub S
    connect_with from req none h =
        send_error 0 from req.id (codes "invalid connect_to_peer params") h
    connect_with from req (some p) h =
        deliver from req.id p.target_id
          (record { from = from; type = codes "offer"; body = p.offer }) h

    unfoldable pub handle_connect_to_peer : Text → RpcRequest → Hub S → Hub S
    handle_connect_to_peer from req h = connect_with from req (w.connect_params req.params) h

    abbrev pub dispatch : Text → RpcRequest → Hub S → Hub S
    dispatch peer_id req h =
        if text_eq req.method signal_relay
        then handle_signal_relay peer_id req h
        else if text_eq req.method connect_to_peer
        then handle_connect_to_peer peer_id req h
        else send_error 0 peer_id req.id (codes "unknown method: " ++ req.method) h

    -- `none` is a message that is no JSON request.
    unfoldable pub handle_message : Text → Option RpcRequest → Hub S → Hub S
    handle_message peer_id none h = h
    handle_message peer_id (some req) h =
        if is_empty req.id || is_empty req.method then h else dispatch peer_id req h

    -- `HandleWebSocket` up to its loop: the connection is kept, and the waiting signals are
    -- written.
    unfoldable pub connect : Text → ℕ → Hub S → Hub S
    connect peer_id c h =
        let (r, s) = st.poll_signals o peer_id h.store in
        write_all 0 c (polled r) (record h { conns = put peer_id c h.conns; store = s })

-- The deferred end of `HandleWebSocket`, which does not look whose connection is in the map.
unfoldable pub disconnect : {S : Type 0} → Text → Hub S → Hub S
disconnect peer_id h = record h { conns = remove peer_id h.conns }

unfoldable pub close_all : {S : Type 0} → Hub S → Hub S
close_all h = record h { conns = [] }
