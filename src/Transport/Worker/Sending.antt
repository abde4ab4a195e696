-- ===== src/Transport/Worker/Sending.antt =====
-- src/sync_transport/worker.rs and src/sync_transport/commands.rs: what the worker sends, the
-- commands that it takes and the loop of its thread.
use rusteyes.Common.{ℕ, ◌+◌, Bool, true, false, none, some, List, [], ◌∷◌}
use rusteyes.Common.Text.{text_key}
use rusteyes.Common.Result.{Result, ok, err}
use rusteyes.Common.Equality.{Equality}
use rusteyes.Protocol.{Bytes, PeerId, SyncEvent}
use rusteyes.Protocol.Wire.{Codec}
use rusteyes.Transport.{SyncTransportError}
use rusteyes.Transport.Session.{TransportSession, encode_event}
use rusteyes.Transport.Connections.{
  incoming, outgoing, authenticated_endpoints, endpoint_for_peer, endpoints,
}
use rusteyes.Transport.Connections.Operations.{record_endpoint}
use rusteyes.Transport.Worker.{
  TransportSendStatus, sent, max_packet_size_exceeded, resource_not_found, resource_not_available,
  HandleCall, sends, TransportIoEvent, wake, connected, connect_failed, accepted_from, disconnected,
  received, WorkerState, close_untracked_endpoints, close_endpoint, handle_peer_message,
}

-- What the network answers to a send after the calls so far.
abbrev pub Network : Type 0 → Type 0
Network E = List (HandleCall E) → E → Bytes → TransportSendStatus

-- `TransportCommand`.
pub data TransportCommand : Type 0 where
  broadcast : SyncEvent → TransportCommand
  send : PeerId → SyncEvent → TransportCommand

-- What is sent to a command's `reply`.
pub data TransportReply : Type 0 where
  broadcast_reply : Result SyncTransportError ℕ → TransportReply
  send_reply : Result SyncTransportError Bool → TransportReply

abbrev pub count_of : Bool → ℕ
count_of true = 1
count_of false = 0

module _ {E : Type 0} ⦃e : Equality E⦄ (c : Codec) (network : Network E) where
  -- `handle.send` with the status that it returns.
  unfoldable pub handle_send : E → Bytes → WorkerState E → WorkerState E × TransportSendStatus
  handle_send endpoint payload w =
      (record w { calls = sends endpoint payload ∷ w.calls }, network w.calls endpoint payload)

  unfoldable pub after_send : TransportSendStatus → E → WorkerState E → WorkerState E × Bool
  unfolding close_endpoint
  after_send sent endpoint w = (w, true)
  after_send max_packet_size_exceeded endpoint w = (close_endpoint endpoint w, false)
  after_send resource_not_found endpoint w = (close_endpoint endpoint w, false)
  after_send resource_not_available endpoint w = (close_endpoint endpoint w, false)

  -- `send_payload`.
  unfoldable pub send_payload : E → Bytes → WorkerState E → WorkerState E × Bool
  unfolding handle_send after_send
  send_payload endpoint payload w =
      let (sending, status) = handle_send endpoint payload w in after_send status endpoint sending

  -- `send_hello`, which closes the endpoint as `send_payload` does if the send fails.
  unfoldable pub send_hello : E → WorkerState E → WorkerState E
  unfolding handle_send after_send
  send_hello endpoint w =
      let (sending, status) = handle_send endpoint w.session.hello_payload w in
      (after_send status endpoint sending).0

  -- The loop of `broadcast_domain_event`, over the endpoints listed before it.
  unfoldable pub send_all : List E → Bytes → WorkerState E → WorkerState E × ℕ
  unfolding send_payload
  send_all [] payload w = (w, 0)
  send_all (endpoint ∷ rest) payload w =
      let (next, is_sent) = send_payload endpoint payload w in
      let (end, sent_count) = send_all rest payload next in (end, count_of is_sent + sent_count)

  unfoldable pub broadcast_encoded :
      TransportSession × Result SyncTransportError Bytes
      → WorkerState E
      → WorkerState E × Result SyncTransportError ℕ
  unfolding send_all authenticated_endpoints
  broadcast_encoded (session, err error) w = (record w { session = session }, err error)
  broadcast_encoded (session, ok payload) w =
      let (end, sent_count) =
        send_all (authenticated_endpoints w.tracker.connections) payload
          (record w { session = session }) in
      (end, ok sent_count)

  -- `broadcast_domain_event`.
  unfoldable pub broadcast_domain_event :
      SyncEvent → WorkerState E → WorkerState E × Result SyncTransportError ℕ
  unfolding broadcast_encoded
  broadcast_domain_event ev w = broadcast_encoded (encode_event c ev w.session) w

  unfoldable pub send_encoded :
      TransportSession × Result SyncTransportError Bytes
      → E
      → WorkerState E
      → WorkerState E × Result SyncTransportError Bool
  unfolding send_payload
  send_encoded (session, err error) endpoint w = (record w { session = session }, err error)
  send_encoded (session, ok payload) endpoint w =
      let (end, is_sent) = send_payload endpoint payload (record w { session = session }) in
      (end, ok is_sent)

  -- `send_domain_event`.
  unfoldable pub send_domain_event :
      PeerId → SyncEvent → WorkerState E → WorkerState E × Result SyncTransportError Bool
  unfolding endpoint_for_peer send_encoded
  send_domain_event peer ev w = elim (endpoint_for_peer peer w.tracker.connections) [
    | none ↦ (w, ok false)
    | some endpoint ↦ send_encoded (encode_event c ev w.session) endpoint w
  ]

  unfoldable pub handle_command : TransportCommand → WorkerState E → WorkerState E × TransportReply
  unfolding broadcast_domain_event send_domain_event
  handle_command (broadcast ev) w =
      let (end, reply) = broadcast_domain_event ev w in (end, broadcast_reply reply)
  handle_command (send peer ev) w =
      let (end, reply) = send_domain_event peer ev w in (end, send_reply reply)

  -- `handle_transport_commands`, with the commands that wait.
  unfoldable pub handle_transport_commands :
      List TransportCommand → WorkerState E → WorkerState E × List TransportReply
  unfolding handle_command
  handle_transport_commands [] w = (w, [])
  handle_transport_commands (command ∷ commands) w =
      let (next, reply) = handle_command command w in
      let (end, replies) = handle_transport_commands commands next in (end, reply ∷ replies)

  -- `handle_network_event`.
  unfoldable pub handle_network_event : TransportIoEvent E → WorkerState E → WorkerState E
  unfolding record_endpoint send_hello close_endpoint handle_peer_message
  handle_network_event wake w = w
  handle_network_event (connected endpoint) w =
      send_hello endpoint (record w { tracker = record_endpoint endpoint outgoing w.tracker })
  handle_network_event (connect_failed endpoint) w = close_endpoint endpoint w
  handle_network_event (accepted_from endpoint) w =
      send_hello endpoint (record w { tracker = record_endpoint endpoint incoming w.tracker })
  handle_network_event (received endpoint bytes) w = handle_peer_message c endpoint bytes w
  handle_network_event (disconnected endpoint) w = close_endpoint endpoint w

  -- One round of the worker's thread: what it receives, and the commands that wait then.
  unfoldable pub round : TransportIoEvent E → List TransportCommand → WorkerState E → WorkerState E
  unfolding handle_transport_commands handle_network_event
  round wake commands w = (handle_transport_commands commands w).0
  round (connected endpoint) commands w = handle_network_event (connected endpoint) w
  round (connect_failed endpoint) commands w = handle_network_event (connect_failed endpoint) w
  round (accepted_from endpoint) commands w = handle_network_event (accepted_from endpoint) w
  round (received endpoint bytes) commands w = handle_network_event (received endpoint bytes) w
  round (disconnected endpoint) commands w = handle_network_event (disconnected endpoint) w

  -- The rounds of the thread until it is told to stop.
  unfoldable pub rounds :
      List (TransportIoEvent E × List TransportCommand) → WorkerState E → WorkerState E
  unfolding round
  rounds [] w = w
  rounds ((input, commands) ∷ rest) w = rounds rest (round input commands w)

  -- The thread of `spawn_worker_thread`: its rounds, and then every endpoint is removed.
  unfoldable pub run_worker :
      List (TransportIoEvent E × List TransportCommand) → WorkerState E → WorkerState E
  unfolding rounds endpoints close_untracked_endpoints
  run_worker inputs w =
      let end = rounds inputs w in close_untracked_endpoints (endpoints end.tracker.connections) end
