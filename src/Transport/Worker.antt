-- ===== src/Transport/Worker.antt =====
-- src/sync_transport/worker.rs: `WorkerState`. The calls of the network's handle and the events sent
-- to the runtime are kept in logs, the newest first. What the network answers to a send is a
-- function of the calls made before it.
pub mod Sending
pub mod Authenticity
pub mod Quiet
pub mod Genuine
pub mod Peers
pub mod Hello
pub mod Announced
pub mod Broadcast
use rusteyes.Common.{ℕ, ◌+◌, Bool, true, false, not, ◌&&◌, none, some, List, [], ◌∷◌, if◌then◌else◌}
use rusteyes.Common.Text.{text_eq}
use rusteyes.Common.Result.{Result, ok, err}
use rusteyes.Common.Equality.{Equality}
use rusteyes.Protocol.{
  Bytes, PeerId, Fingerprint, SyncEvent, SyncFramePayload, peer_hello, event, SyncMessage,
}
use rusteyes.Protocol.Wire.{Codec}
use rusteyes.Runtime.{
  SyncTransportEvent, peer_authenticated, peer_disconnected, peer_rejected, domain,
  incompatible_configuration,
}
use rusteyes.Transport.{SyncTransportError}
use rusteyes.Transport.Session.{TransportSession, TransportFrameError, encode_event, decode_message}
use rusteyes.Transport.Connections
use rusteyes.Transport.Connections.{
  ConnectionTracker, PeerAuthentication, PeerAuthenticationResult, authenticated_new_peer,
  authenticated_existing_peer, rejected_self, rejected_unknown_endpoint, EndpointRemoval,
  peer_still_connected, unauthenticated_endpoint, unknown_endpoint, InboundEventAcceptance,
  accepted, unauthenticated, sender_mismatch, replayed, incoming, outgoing, authenticated_endpoints,
  endpoint_for_peer, endpoints,
}
use rusteyes.Transport.Connections.Operations.{
  record_endpoint, remove_endpoint, authenticate_peer, accept_inbound_event,
}

-- `TransportSendStatus`.
pub data TransportSendStatus : Type 0 where
  sent max_packet_size_exceeded resource_not_found resource_not_available : TransportSendStatus

-- A call of `TransportIoHandle`.
pub data HandleCall (E : Type 0) : Type 0 where
  sends : E → Bytes → HandleCall E
  removes : E → HandleCall E

-- `TransportIoEvent`.
pub data TransportIoEvent (E : Type 0) : Type 0 where
  wake : TransportIoEvent E
  connected connect_failed accepted_from disconnected : E → TransportIoEvent E
  received : E → Bytes → TransportIoEvent E

pub record WorkerState (E : Type 0) : Type 0 where
  pub session : TransportSession
  pub tracker : ConnectionTracker E
  pub calls : List (HandleCall E)
  pub events : List SyncTransportEvent

module _ {E : Type 0} where
  -- `WorkerState::new`.
  unfoldable pub new : TransportSession → WorkerState E
  unfolding Connections.new
  new session = record {
    session = session;
    tracker = Connections.new session.self_id;
    calls = [];
    events = [];
  }

  -- `emit`.
  unfoldable pub emit : SyncTransportEvent → WorkerState E → WorkerState E
  emit message w = record w { events = message ∷ w.events }

  -- `handle.remove`.
  unfoldable pub remove : E → WorkerState E → WorkerState E
  remove endpoint w = record w { calls = removes endpoint ∷ w.calls }

  -- `close_untracked_endpoints`.
  unfoldable pub close_untracked_endpoints : List E → WorkerState E → WorkerState E
  unfolding remove
  close_untracked_endpoints [] w = w
  close_untracked_endpoints (endpoint ∷ rest) w = close_untracked_endpoints rest (remove endpoint w)

  unfoldable pub emit_removal : EndpointRemoval → WorkerState E → WorkerState E
  unfolding emit
  emit_removal (Connections.peer_disconnected peer) w = emit (peer_disconnected peer) w
  emit_removal (peer_still_connected peer) w = w
  emit_removal unauthenticated_endpoint w = w
  emit_removal unknown_endpoint w = w

  unfoldable pub emit_authentication : PeerAuthenticationResult → WorkerState E → WorkerState E
  unfolding emit
  emit_authentication (authenticated_new_peer peer) w = emit (peer_authenticated peer) w
  emit_authentication (authenticated_existing_peer peer) w = w
  emit_authentication (rejected_self peer) w = w
  emit_authentication (rejected_unknown_endpoint peer) w = w

module _ {E : Type 0} ⦃e : Equality E⦄ where
  -- `close_endpoint`.
  unfoldable pub close_endpoint : E → WorkerState E → WorkerState E
  unfolding remove_endpoint emit_removal remove
  close_endpoint endpoint w =
      let (tracker, removal) = remove_endpoint endpoint w.tracker in
      remove endpoint (emit_removal removal (record w { tracker = tracker }))

  -- `handle_peer_hello` behind its first test.
  unfoldable pub authenticate : E → PeerId → WorkerState E → WorkerState E
  authenticate endpoint sender w =
      let (tracker, authentication) = authenticate_peer endpoint sender w.tracker in
      emit_authentication authentication.result (
        close_untracked_endpoints authentication.endpoints_to_close
          (record w { tracker = tracker }))

  -- `handle_peer_hello`.
  unfoldable pub handle_peer_hello : E → PeerId → Fingerprint → WorkerState E → WorkerState E
  unfolding text_eq close_endpoint emit authenticate
  handle_peer_hello endpoint sender compatibility w =
      if not (text_eq sender w.session.self_id)
        && not (text_eq compatibility w.session.compatibility)
      then close_endpoint endpoint (emit (peer_rejected sender incompatible_configuration) w)
      else authenticate endpoint sender w

  unfoldable pub handle_acceptance :
      InboundEventAcceptance → E → PeerId → SyncEvent → WorkerState E → WorkerState E
  unfolding emit close_endpoint
  handle_acceptance accepted endpoint sender ev w = emit (domain sender ev) w
  handle_acceptance unauthenticated endpoint sender ev w = close_endpoint endpoint w
  handle_acceptance (sender_mismatch peer) endpoint sender ev w = close_endpoint endpoint w
  handle_acceptance (replayed highest_seen) endpoint sender ev w = w

  -- `handle_domain_event`.
  unfoldable pub handle_domain_event : E → PeerId → ℕ → SyncEvent → WorkerState E → WorkerState E
  unfolding accept_inbound_event handle_acceptance
  handle_domain_event endpoint sender sequence ev w =
      let (tracker, acceptance) = accept_inbound_event endpoint sender sequence w.tracker in
      handle_acceptance acceptance endpoint sender ev (record w { tracker = tracker })

  unfoldable pub handle_payload : SyncFramePayload → E → PeerId → ℕ → WorkerState E → WorkerState E
  unfolding handle_peer_hello handle_domain_event
  handle_payload (peer_hello compatibility) endpoint sender sequence w =
      handle_peer_hello endpoint sender compatibility w
  handle_payload (event ev) endpoint sender sequence w =
      handle_domain_event endpoint sender sequence ev w

  unfoldable pub handle_decoded :
      Result TransportFrameError SyncMessage → E → WorkerState E → WorkerState E
  unfolding close_endpoint handle_payload
  handle_decoded (err e) endpoint w = close_endpoint endpoint w
  handle_decoded (ok m) endpoint w = handle_payload m.payload endpoint m.sender m.sequence w

  -- `handle_peer_message`.
  unfoldable pub handle_peer_message : Codec → E → Bytes → WorkerState E → WorkerState E
  unfolding handle_decoded
  handle_peer_message c endpoint bytes w =
      handle_decoded (decode_message c bytes w.session) endpoint w
