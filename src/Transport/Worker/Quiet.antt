-- ===== src/Transport/Worker/Quiet.antt =====
-- src/sync_transport/worker.rs: the operations that hand no domain event to the runtime.
use rusteyes.Common.{
  ◌≡◌, refl, ◌∙◌, List, [], ◌∷◌, arith, Bool-cases, Option-cases, inl, inr, not, ◌&&◌,
}
use rusteyes.Common.Text.{text_key, text_eq}
use rusteyes.Common.Result.{Result, ok, err}
use rusteyes.Common.Equality.{Equality}
use rusteyes.Protocol.{Bytes, PeerId, Fingerprint, SyncEvent}
use rusteyes.Protocol.Wire.{Codec}
use rusteyes.Runtime.{
  SyncTransportEvent, peer_authenticated, peer_disconnected, peer_rejected, domain,
  incompatible_configuration,
}
use rusteyes.Transport.{SyncTransportError}
use rusteyes.Transport.Session.{TransportSession, encode_event}
use rusteyes.Transport.Delivery.{EncodeOutcome, refused, stamped, encode_event-EncodeOutcome}
use rusteyes.Transport.Connections
use rusteyes.Transport.Connections.{
  PeerAuthenticationResult, authenticated_new_peer, authenticated_existing_peer, rejected_self,
  rejected_unknown_endpoint, EndpointRemoval, peer_still_connected, unauthenticated_endpoint,
  unknown_endpoint, endpoint_for_peer, authenticated_endpoints,
}
use rusteyes.Transport.Connections.Operations.{remove_endpoint, authenticate_peer}
use rusteyes.Transport.Worker.{
  TransportSendStatus, sent, max_packet_size_exceeded, resource_not_found, resource_not_available,
  WorkerState, emit, remove, close_untracked_endpoints, emit_removal, emit_authentication,
  close_endpoint, authenticate, handle_peer_hello,
}
use rusteyes.Transport.Worker.Sending.{
  Network, handle_send, TransportCommand, broadcast, send, after_send, send_payload, send_hello,
  send_all, broadcast_encoded, broadcast_domain_event, send_encoded, send_domain_event,
  handle_command, handle_transport_commands,
}

-- The domain events in a log, each with its peer.
abbrev pub delivered : List SyncTransportEvent → List (PeerId × SyncEvent)
delivered [] = []
delivered (peer_authenticated peer ∷ log) = delivered log
delivered (peer_disconnected peer ∷ log) = delivered log
delivered (peer_rejected peer reason ∷ log) = delivered log
delivered (domain peer ev ∷ log) = (peer, ev) ∷ delivered log

-- No domain event is handed on, and the secret stays.
pub record Quiet {E : Type 0} (w after : WorkerState E) : Type 0 where
  pub same_secret : after.session.shared_secret ≡ w.session.shared_secret
  pub same_delivered : delivered after.events ≡ delivered w.events

module _ {E : Type 0} where
  pub Quiet-refl : (w : WorkerState E) → Quiet w w
  Quiet-refl w = record { same_secret = refl; same_delivered = refl }

  pub Quiet-trans : {u v w : WorkerState E} → Quiet u v → Quiet v w → Quiet u w
  Quiet-trans p q = record {
    same_secret = q.same_secret ∙ p.same_secret;
    same_delivered = q.same_delivered ∙ p.same_delivered;
  }

  emit_removal-Quiet : (r : EndpointRemoval) (w : WorkerState E) → Quiet w (emit_removal r w)
  unfolding emit_removal
  emit_removal-Quiet (Connections.peer_disconnected peer) w = ground arith
  emit_removal-Quiet (peer_still_connected peer) w = Quiet-refl w
  emit_removal-Quiet unauthenticated_endpoint w = Quiet-refl w
  emit_removal-Quiet unknown_endpoint w = Quiet-refl w

  emit_authentication-Quiet :
      (r : PeerAuthenticationResult) (w : WorkerState E) → Quiet w (emit_authentication r w)
  unfolding emit_authentication
  emit_authentication-Quiet (authenticated_new_peer peer) w = ground arith
  emit_authentication-Quiet (authenticated_existing_peer peer) w = Quiet-refl w
  emit_authentication-Quiet (rejected_self peer) w = Quiet-refl w
  emit_authentication-Quiet (rejected_unknown_endpoint peer) w = Quiet-refl w

  close_untracked_endpoints-Quiet :
      (endpoints : List E) (w : WorkerState E) → Quiet w (close_untracked_endpoints endpoints w)
  unfolding close_untracked_endpoints
  close_untracked_endpoints-Quiet [] w = Quiet-refl w
  close_untracked_endpoints-Quiet (endpoint ∷ endpoints) w =
      Quiet-trans (record { same_secret = refl; same_delivered = refl })
        (close_untracked_endpoints-Quiet endpoints (remove endpoint w))

module _ {E : Type 0} ⦃e : Equality E⦄ where
  pub close_endpoint-Quiet :
      (endpoint : E) (w : WorkerState E) → Quiet w (close_endpoint endpoint w)
  unfolding close_endpoint
  close_endpoint-Quiet endpoint w =
      let (tracker, removal) = remove_endpoint endpoint w.tracker in
      let q = emit_removal-Quiet removal (record w { tracker = tracker }) in
      record { same_secret = q.same_secret; same_delivered = q.same_delivered }

  authenticate-Quiet :
      (endpoint : E) (sender : PeerId) (w : WorkerState E)
      → Quiet w (authenticate endpoint sender w)
  unfolding authenticate
  authenticate-Quiet endpoint sender w =
      let (tracker, a) = authenticate_peer endpoint sender w.tracker in
      let changed : WorkerState E = record w { tracker = tracker } in
      let closed : WorkerState E = close_untracked_endpoints a.endpoints_to_close changed in
      let p = close_untracked_endpoints-Quiet a.endpoints_to_close changed in
      let q = emit_authentication-Quiet a.result closed in
      record {
        same_secret = q.same_secret ∙ p.same_secret;
        same_delivered = q.same_delivered ∙ p.same_delivered;
      }

  pub handle_peer_hello-Quiet :
      (endpoint : E) (sender : PeerId) (compatibility : Fingerprint) (w : WorkerState E)
      → Quiet w (handle_peer_hello endpoint sender compatibility w)
  unfolding handle_peer_hello
  handle_peer_hello-Quiet endpoint sender compatibility w =
      elim (Bool-cases (
        not (text_eq sender w.session.self_id)
        && not (text_eq compatibility w.session.compatibility))) [
          | inl bad ↦
              let q =
                close_endpoint-Quiet endpoint
                  (emit (peer_rejected sender incompatible_configuration) w) in
              rw bad (record { same_secret = q.same_secret; same_delivered = q.same_delivered })
          | inr fine ↦ rw fine (authenticate-Quiet endpoint sender w)
        ]

  module _ (c : Codec) (network : Network E) where
    after_send-Quiet :
        (status : TransportSendStatus) (endpoint : E) (w : WorkerState E)
        → Quiet w (after_send c network status endpoint w).0
    unfolding after_send
    after_send-Quiet sent endpoint w = Quiet-refl w
    after_send-Quiet max_packet_size_exceeded endpoint w = close_endpoint-Quiet endpoint w
    after_send-Quiet resource_not_found endpoint w = close_endpoint-Quiet endpoint w
    after_send-Quiet resource_not_available endpoint w = close_endpoint-Quiet endpoint w

    send_payload-Quiet :
        (endpoint : E) (payload : Bytes) (w : WorkerState E)
        → Quiet w (send_payload c network endpoint payload w).0
    unfolding send_payload
    send_payload-Quiet endpoint payload w =
        let (sending, status) = handle_send c network endpoint payload w in
        let q = after_send-Quiet status endpoint sending in
        record { same_secret = q.same_secret; same_delivered = q.same_delivered }

    pub send_hello-Quiet :
        (endpoint : E) (w : WorkerState E) → Quiet w (send_hello c network endpoint w)
    unfolding send_hello
    send_hello-Quiet endpoint w =
        let (sending, status) = handle_send c network endpoint w.session.hello_payload w in
        let q = after_send-Quiet status endpoint sending in
        record { same_secret = q.same_secret; same_delivered = q.same_delivered }

    send_all-Quiet :
        (endpoints : List E) (payload : Bytes) (w : WorkerState E)
        → Quiet w (send_all c network endpoints payload w).0
    unfolding send_all
    send_all-Quiet [] payload w = Quiet-refl w
    send_all-Quiet (endpoint ∷ endpoints) payload w =
        Quiet-trans (send_payload-Quiet endpoint payload w)
          (send_all-Quiet endpoints payload (send_payload c network endpoint payload w).0)

    broadcast_encoded-Quiet :
        (result : TransportSession × Result SyncTransportError Bytes) (w : WorkerState E)
        → result.0.shared_secret ≡ w.session.shared_secret
        → Quiet w (broadcast_encoded c network result w).0
    unfolding broadcast_encoded
    broadcast_encoded-Quiet (session, err error) w h = record {
      same_secret = h;
      same_delivered = refl;
    }
    broadcast_encoded-Quiet (session, ok payload) w h =
        Quiet-trans {v = record w { session = session }}
          (record { same_secret = h; same_delivered = refl })
          (send_all-Quiet (authenticated_endpoints w.tracker.connections) payload
            (record w { session = session }))

    send_encoded-Quiet :
        (result : TransportSession × Result SyncTransportError Bytes) (endpoint : E)
        (w : WorkerState E)
        → result.0.shared_secret ≡ w.session.shared_secret
        → Quiet w (send_encoded c network result endpoint w).0
    unfolding send_encoded
    send_encoded-Quiet (session, err error) endpoint w h = record {
      same_secret = h;
      same_delivered = refl;
    }
    send_encoded-Quiet (session, ok payload) endpoint w h =
        Quiet-trans {v = record w { session = session }}
          (record { same_secret = h; same_delivered = refl })
          (send_payload-Quiet endpoint payload (record w { session = session }))

    encoded-secret :
        (ev : SyncEvent) (s : TransportSession)
        {end : TransportSession × Result SyncTransportError Bytes}
        → EncodeOutcome c ev s end
        → end.0.shared_secret ≡ s.shared_secret
    encoded-secret ev s (refused error) = refl
    encoded-secret ev s (stamped payload more made) = refl

    send_domain_event-Quiet :
        (peer : PeerId) (ev : SyncEvent) (w : WorkerState E)
        → Quiet w (send_domain_event c network peer ev w).0
    unfolding send_domain_event
    send_domain_event-Quiet peer ev w =
        elim (Option-cases (endpoint_for_peer peer w.tracker.connections)) [
          | inl e ↦ rw (e, send_domain_event) (Quiet-refl w)
          | inr (endpoint, e) ↦
              rw (e, send_domain_event)
                (send_encoded-Quiet (encode_event c ev w.session) endpoint w
                  (encoded-secret ev w.session (encode_event-EncodeOutcome c ev w.session)))
        ]

    handle_command-Quiet :
        (command : TransportCommand) (w : WorkerState E)
        → Quiet w (handle_command c network command w).0
    unfolding handle_command broadcast_domain_event
    handle_command-Quiet (broadcast ev) w =
        broadcast_encoded-Quiet (encode_event c ev w.session) w
          (encoded-secret ev w.session (encode_event-EncodeOutcome c ev w.session))
    handle_command-Quiet (send peer ev) w = send_domain_event-Quiet peer ev w

    pub handle_transport_commands-Quiet :
        (commands : List TransportCommand) (w : WorkerState E)
        → Quiet w (handle_transport_commands c network commands w).0
    unfolding handle_transport_commands
    handle_transport_commands-Quiet [] w = Quiet-refl w
    handle_transport_commands-Quiet (command ∷ commands) w =
        Quiet-trans (handle_command-Quiet command w)
          (handle_transport_commands-Quiet commands (handle_command c network command w).0)
