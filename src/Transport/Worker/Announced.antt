-- ===== src/Transport/Worker/Announced.antt =====
-- src/sync_transport/worker.rs: the peers that the runtime has been told of, over a whole run.
use rusteyes.Common.{ℕ, ◌≡◌, refl, sym, ◌∙◌, List, [], ◌∷◌, Option-cases, inl, inr}
use rusteyes.Common.Text.{text_key}
use rusteyes.Common.Result.{Result, ok, err, Result-cases}
use rusteyes.Common.Equality.{Equality}
use rusteyes.Protocol.{Bytes, PeerId, SyncEvent, SyncFramePayload, peer_hello, event, SyncMessage}
use rusteyes.Protocol.Wire.{Codec}
use rusteyes.Transport.{SyncTransportError}
use rusteyes.Transport.Session.{TransportSession, encode_event, decode_message}
use rusteyes.Transport.Connections
use rusteyes.Transport.Connections.{
  ConnectionTracker, ConnectionDirection, incoming, outgoing, InboundEventAcceptance, accepted,
  unauthenticated, sender_mismatch, replayed, endpoint_for_peer, authenticated_endpoints,
  peer_is_connected,
}
use rusteyes.Transport.Connections.Operations.{record_endpoint}
use rusteyes.Transport.Connections.Membership.{record_endpoint-peers, record_endpoint_self}
use rusteyes.Transport.Connections.Replay.{
  AcceptOutcome, turned_away, taken, accept_inbound_event-AcceptOutcome,
}
use rusteyes.Transport.Worker.{
  TransportSendStatus, sent, max_packet_size_exceeded, resource_not_found, resource_not_available,
  TransportIoEvent, wake, connected, connect_failed, accepted_from, disconnected, received,
  WorkerState, new, handle_acceptance, handle_domain_event, handle_payload, handle_decoded,
  handle_peer_message,
}
use rusteyes.Transport.Worker.Sending.{
  Network, handle_send, TransportCommand, broadcast, send, after_send, send_payload, send_hello,
  send_all, broadcast_encoded, broadcast_domain_event, send_encoded, send_domain_event,
  handle_command, handle_transport_commands, handle_network_event, round, rounds,
}
use rusteyes.Transport.Worker.Peers.{IsAnnounced, IsSteady, close_endpoint-IsAnnounced}
use rusteyes.Transport.Worker.Hello.{handle_peer_hello-IsAnnounced}

-- The runtime's view of a worker is exact.
abbrev pub IsExact : {E : Type 0} → WorkerState E → Type 0
IsExact w = IsAnnounced w.events w.tracker

abbrev pub SteadyPayload :
    {E : Type 0} → ⦃e : Equality E⦄ → E → PeerId → SyncFramePayload → ConnectionTracker E → Type 0
SteadyPayload endpoint sender (peer_hello compatibility) t = IsSteady endpoint sender t
SteadyPayload endpoint sender (event ev) t = Unit

-- If the round's frame is a hello, its endpoint is not authenticated as another peer.
abbrev pub SteadyRound :
    {E : Type 0} → ⦃e : Equality E⦄ → Codec → TransportIoEvent E → WorkerState E → Type 0
SteadyRound c wake w = Unit
SteadyRound c (connected endpoint) w = Unit
SteadyRound c (connect_failed endpoint) w = Unit
SteadyRound c (accepted_from endpoint) w = Unit
SteadyRound c (received endpoint bytes) w =
    (m : SyncMessage)
    → decode_message c bytes w.session ≡ ok m
    → SteadyPayload endpoint m.sender m.payload w.tracker
SteadyRound c (disconnected endpoint) w = Unit

module _ {E : Type 0} ⦃e : Equality E⦄ (c : Codec) (network : Network E) where
  -- So in every round, each in the state that it meets.
  abbrev pub SteadyRounds :
      List (TransportIoEvent E × List TransportCommand) → WorkerState E → Type 0
  SteadyRounds [] w = Unit
  SteadyRounds ((input, commands) ∷ rest) w =
      SteadyRound c input w × SteadyRounds rest (round c network input commands w)

  accepted-IsExact :
      (endpoint : E) (sender : PeerId) (sequence : ℕ) (ev : SyncEvent) (w : WorkerState E)
      {end : ConnectionTracker E × InboundEventAcceptance}
      → AcceptOutcome sender sequence w.tracker end
      → IsExact w
      → IsExact (handle_acceptance end.1 endpoint sender ev (record w { tracker = end.0 }))
  unfolding handle_acceptance
  accepted-IsExact endpoint sender sequence ev w (turned_away accepted refused) h =
      absurd (refused refl)
  accepted-IsExact endpoint sender sequence ev w (turned_away unauthenticated refused) h =
      close_endpoint-IsAnnounced endpoint w h
  accepted-IsExact endpoint sender sequence ev w (turned_away (sender_mismatch peer) refused) h =
      close_endpoint-IsAnnounced endpoint w h
  accepted-IsExact endpoint sender sequence ev w (turned_away (replayed highest) refused) h = h
  accepted-IsExact endpoint sender sequence ev w (taken above) h = record {
    agree = h.agree;
    not_self = h.not_self;
  }

  handle_payload-IsExact :
      (payload : SyncFramePayload) (endpoint : E) (sender : PeerId) (sequence : ℕ)
      (w : WorkerState E)
      → SteadyPayload endpoint sender payload w.tracker
      → IsExact w
      → IsExact (handle_payload payload endpoint sender sequence w)
  unfolding handle_payload handle_domain_event
  handle_payload-IsExact (peer_hello compatibility) endpoint sender sequence w steady h =
      handle_peer_hello-IsAnnounced endpoint sender compatibility w steady h
  handle_payload-IsExact (event ev) endpoint sender sequence w steady h =
      accepted-IsExact endpoint sender sequence ev w
        (accept_inbound_event-AcceptOutcome endpoint sender sequence w.tracker) h

  after_send-IsExact :
      (status : TransportSendStatus) (endpoint : E) (w : WorkerState E)
      → IsExact w
      → IsExact (after_send c network status endpoint w).0
  unfolding after_send
  after_send-IsExact sent endpoint w h = h
  after_send-IsExact max_packet_size_exceeded endpoint w h = close_endpoint-IsAnnounced endpoint w h
  after_send-IsExact resource_not_found endpoint w h = close_endpoint-IsAnnounced endpoint w h
  after_send-IsExact resource_not_available endpoint w h = close_endpoint-IsAnnounced endpoint w h

  send_payload-IsExact :
      (endpoint : E) (payload : Bytes) (w : WorkerState E)
      → IsExact w
      → IsExact (send_payload c network endpoint payload w).0
  unfolding send_payload handle_send
  send_payload-IsExact endpoint payload w h =
      let (sending, status) = handle_send c network endpoint payload w in
      after_send-IsExact status endpoint sending h

  send_hello-IsExact :
      (endpoint : E) (w : WorkerState E) → IsExact w → IsExact (send_hello c network endpoint w)
  unfolding send_hello handle_send
  send_hello-IsExact endpoint w h =
      let (sending, status) = handle_send c network endpoint w.session.hello_payload w in
      after_send-IsExact status endpoint sending h

  send_all-IsExact :
      (endpoints : List E) (payload : Bytes) (w : WorkerState E)
      → IsExact w
      → IsExact (send_all c network endpoints payload w).0
  unfolding send_all
  send_all-IsExact [] payload w h = h
  send_all-IsExact (endpoint ∷ endpoints) payload w h =
      send_all-IsExact endpoints payload (send_payload c network endpoint payload w).0
        (send_payload-IsExact endpoint payload w h)

  broadcast_encoded-IsExact :
      (result : TransportSession × Result SyncTransportError Bytes) (w : WorkerState E)
      → IsExact w
      → IsExact (broadcast_encoded c network result w).0
  unfolding broadcast_encoded
  broadcast_encoded-IsExact (session, err error) w h = h
  broadcast_encoded-IsExact (session, ok payload) w h =
      send_all-IsExact (authenticated_endpoints w.tracker.connections) payload
        (record w { session = session }) h

  send_encoded-IsExact :
      (result : TransportSession × Result SyncTransportError Bytes) (endpoint : E)
      (w : WorkerState E)
      → IsExact w
      → IsExact (send_encoded c network result endpoint w).0
  unfolding send_encoded
  send_encoded-IsExact (session, err error) endpoint w h = h
  send_encoded-IsExact (session, ok payload) endpoint w h =
      send_payload-IsExact endpoint payload (record w { session = session }) h

  handle_command-IsExact :
      (command : TransportCommand) (w : WorkerState E)
      → IsExact w
      → IsExact (handle_command c network command w).0
  unfolding handle_command broadcast_domain_event send_domain_event
  handle_command-IsExact (broadcast ev) w h =
      broadcast_encoded-IsExact (encode_event c ev w.session) w h
  handle_command-IsExact (send peer ev) w h =
      elim (Option-cases (endpoint_for_peer peer w.tracker.connections)) [
        | inl missing ↦ rw (missing, send_domain_event) h
        | inr (endpoint, found) ↦
            rw (found, send_domain_event)
              (send_encoded-IsExact (encode_event c ev w.session) endpoint w h)
      ]

  handle_transport_commands-IsExact :
      (commands : List TransportCommand) (w : WorkerState E)
      → IsExact w
      → IsExact (handle_transport_commands c network commands w).0
  unfolding handle_transport_commands
  handle_transport_commands-IsExact [] w h = h
  handle_transport_commands-IsExact (command ∷ commands) w h =
      handle_transport_commands-IsExact commands (handle_command c network command w).0
        (handle_command-IsExact command w h)

  recorded-IsExact :
      (endpoint : E) (direction : ConnectionDirection) (w : WorkerState E)
      → IsExact w
      → IsAnnounced w.events (record_endpoint endpoint direction w.tracker)
  recorded-IsExact endpoint direction w h = record {
    agree = λ p. h.agree p ∙ sym (record_endpoint-peers endpoint direction p w.tracker);
    not_self =
        rw (record_endpoint_self endpoint direction w.tracker)
          (record_endpoint-peers endpoint direction w.tracker.self_id w.tracker ∙ h.not_self);
  }

  round-IsExact :
      (input : TransportIoEvent E) (commands : List TransportCommand) (w : WorkerState E)
      → SteadyRound c input w
      → IsExact w
      → IsExact (round c network input commands w)
  unfolding round handle_network_event handle_peer_message handle_decoded
  round-IsExact wake commands w steady h = handle_transport_commands-IsExact commands w h
  round-IsExact (connected endpoint) commands w steady h =
      send_hello-IsExact endpoint
        (record w { tracker = record_endpoint endpoint outgoing w.tracker })
        (recorded-IsExact endpoint outgoing w h)
  round-IsExact (connect_failed endpoint) commands w steady h =
      close_endpoint-IsAnnounced endpoint w h
  round-IsExact (accepted_from endpoint) commands w steady h =
      send_hello-IsExact endpoint
        (record w { tracker = record_endpoint endpoint incoming w.tracker })
        (recorded-IsExact endpoint incoming w h)
  round-IsExact (received endpoint bytes) commands w steady h =
      elim (Result-cases (decode_message c bytes w.session)) [
        | inr (error, refused) ↦ rw refused (close_endpoint-IsAnnounced endpoint w h)
        | inl (m, decoded) ↦
            rw decoded
              (handle_payload-IsExact m.payload endpoint m.sender m.sequence w (steady m decoded) h)
      ]
  round-IsExact (disconnected endpoint) commands w steady h =
      close_endpoint-IsAnnounced endpoint w h

  rounds-IsExact :
      (inputs : List (TransportIoEvent E × List TransportCommand)) (w : WorkerState E)
      → SteadyRounds inputs w
      → IsExact w
      → IsExact (rounds c network inputs w)
  unfolding rounds
  rounds-IsExact [] w steady h = h
  rounds-IsExact ((input, commands) ∷ rest) w (now, later) h =
      rounds-IsExact rest (round c network input commands w) later
        (round-IsExact input commands w now h)

  -- From the start of a worker, whatever arrives, whatever is sent and whichever sends fail, the
  -- runtime has been told of exactly the connected peers: the last of `PeerAuthenticated` and
  -- `PeerDisconnected` for a peer is `PeerAuthenticated` just while the peer is connected. No endpoint
  -- that is authenticated as one peer sends the hello of another.
  pub rounds-IsAnnounced :
      (session : TransportSession) (inputs : List (TransportIoEvent E × List TransportCommand))
      → SteadyRounds inputs (new session)
      → (let w = rounds c network inputs (new session) in IsAnnounced w.events w.tracker)
  unfolding new Connections.new peer_is_connected
  rounds-IsAnnounced session inputs steady =
      rounds-IsExact inputs (new session) steady (record { agree = λ p. refl; not_self = refl })
