-- ===== src/Transport/Worker/Broadcast.antt =====
-- src/sync_transport/worker.rs: whom a broadcast reaches.
use rusteyes.Common.{ℕ, ◌+◌, Bool, ◌≡◌, refl, ap, ◌∙◌, false, List, [], ◌∷◌, length, arith}
use rusteyes.Common.Result.{ok}
use rusteyes.Common.Equality.{Equality}
use rusteyes.Protocol.{Bytes, SyncEvent}
use rusteyes.Protocol.Wire.{Codec}
use rusteyes.Transport.Session.{TransportSession, encode_event}
use rusteyes.Transport.Connections.{
  EndpointRemoval, peer_disconnected, peer_still_connected, unauthenticated_endpoint,
  unknown_endpoint, authenticated_endpoints,
}
use rusteyes.Transport.Connections.Operations.{remove_endpoint}
use rusteyes.Transport.Worker.{
  TransportSendStatus, sent, max_packet_size_exceeded, resource_not_found, resource_not_available,
  HandleCall, sends, removes, WorkerState, emit_removal, remove, close_endpoint,
}
use rusteyes.Transport.Worker.Sending.{
  Network, count_of, handle_send, after_send, send_payload, send_all, broadcast_encoded,
  broadcast_domain_event,
}

module _ {E : Type 0} where
  -- The sends among the calls, the newest first.
  abbrev pub sent_frames : List (HandleCall E) → List (E × Bytes)
  sent_frames [] = []
  sent_frames (sends endpoint payload ∷ calls) = (endpoint, payload) ∷ sent_frames calls
  sent_frames (removes endpoint ∷ calls) = sent_frames calls

  -- How many endpoints the calls remove.
  abbrev pub removal_count : List (HandleCall E) → ℕ
  removal_count [] = 0
  removal_count (sends endpoint payload ∷ calls) = removal_count calls
  removal_count (removes endpoint ∷ calls) = removal_count calls + 1

  -- The frames of one payload to each endpoint in turn, put before others, the newest first.
  abbrev pub frames_to : List E → Bytes → List (E × Bytes) → List (E × Bytes)
  frames_to [] payload frames = frames
  frames_to (endpoint ∷ rest) payload frames = frames_to rest payload ((endpoint, payload) ∷ frames)

  emit_removal-calls :
      (removal : EndpointRemoval) (w : WorkerState E) → (emit_removal removal w).calls ≡ w.calls
  unfolding emit_removal
  emit_removal-calls (peer_disconnected peer) w = refl
  emit_removal-calls (peer_still_connected peer) w = refl
  emit_removal-calls unauthenticated_endpoint w = refl
  emit_removal-calls unknown_endpoint w = refl

module _ {E : Type 0} ⦃e : Equality E⦄ where
  close_endpoint-calls :
      (endpoint : E) (w : WorkerState E)
      → (close_endpoint endpoint w).calls ≡ removes endpoint ∷ w.calls
  unfolding close_endpoint remove
  close_endpoint-calls endpoint w =
      let (tracker, removal) = remove_endpoint endpoint w.tracker in
      ap (λ calls. removes endpoint ∷ calls)
        (emit_removal-calls removal (record w { tracker = tracker }))

  -- What a send has done: its frame is logged, and it is counted unless it was closed for failing.
  abbrev WasSent : E → Bytes → WorkerState E → WorkerState E × Bool → Type 0
  WasSent endpoint payload w (end, is_sent) =
      (sent_frames end.calls ≡ (endpoint, payload) ∷ sent_frames w.calls)
      × (count_of is_sent + removal_count end.calls ≡ removal_count w.calls + 1)

  close_endpoint-WasSent :
      (endpoint : E) (payload : Bytes) (w v : WorkerState E)
      → v.calls ≡ sends endpoint payload ∷ w.calls
      → WasSent endpoint payload w (close_endpoint endpoint v, false)
  close_endpoint-WasSent endpoint payload w v h = (
    rw (close_endpoint-calls endpoint v, h) refl,
    rw (close_endpoint-calls endpoint v, h) (omega arith),
  )

  module _ (c : Codec) (network : Network E) where
    after_send-WasSent :
        (status : TransportSendStatus) (endpoint : E) (payload : Bytes) (w v : WorkerState E)
        → v.calls ≡ sends endpoint payload ∷ w.calls
        → WasSent endpoint payload w (after_send c network status endpoint v)
    unfolding after_send
    after_send-WasSent sent endpoint payload w v h = (rw h refl, rw h (omega arith))
    after_send-WasSent max_packet_size_exceeded endpoint payload w v h =
        close_endpoint-WasSent endpoint payload w v h
    after_send-WasSent resource_not_found endpoint payload w v h =
        close_endpoint-WasSent endpoint payload w v h
    after_send-WasSent resource_not_available endpoint payload w v h =
        close_endpoint-WasSent endpoint payload w v h

    send_payload-WasSent :
        (endpoint : E) (payload : Bytes) (w : WorkerState E)
        → WasSent endpoint payload w (send_payload c network endpoint payload w)
    unfolding send_payload handle_send
    send_payload-WasSent endpoint payload w =
        let (v, status) = handle_send c network endpoint payload w in
        after_send-WasSent status endpoint payload w v refl

    send_all-calls :
        (all : List E) (payload : Bytes) (w : WorkerState E)
        → (let (end, sent_count) = send_all c network all payload w in
            (sent_frames end.calls ≡ frames_to all payload (sent_frames w.calls))
            × (sent_count + removal_count end.calls ≡ removal_count w.calls + length all))
    unfolding send_all
    send_all-calls [] payload w = (refl, omega arith)
    send_all-calls (endpoint ∷ rest) payload w =
        let (next, is_sent) = send_payload c network endpoint payload w in
        let (frames, count) = send_payload-WasSent endpoint payload w in
        let (later, total) = send_all-calls rest payload next in
        (later ∙ ap (frames_to rest payload) frames, omega (arith, count, total))

    -- A broadcast of an event that the session encodes sends its one frame to every endpoint that was
    -- authenticated before, each in turn, and nothing else, whichever sends fail. The number that it
    -- returns is that of these endpoints less those that it removes.
    pub broadcast_domain_event-reaches :
        (ev : SyncEvent) (w : WorkerState E) (session : TransportSession) (payload : Bytes)
        → encode_event c ev w.session ≡ (session, ok payload)
        → (let (end, reply) = broadcast_domain_event c network ev w in
            let all = authenticated_endpoints w.tracker.connections in
            (sent_frames end.calls ≡ frames_to all payload (sent_frames w.calls))
            × (n : ℕ) × (reply ≡ ok n)
            × (n + removal_count end.calls ≡ removal_count w.calls + length all))
    unfolding broadcast_domain_event broadcast_encoded
    broadcast_domain_event-reaches ev w session payload h =
        let (frames, count) =
          send_all-calls (authenticated_endpoints w.tracker.connections) payload
            (record w { session = session }) in
        rw h (
          frames,
          (send_all c network (authenticated_endpoints w.tracker.connections) payload
              (record w { session = session })).1,
          refl,
          count,
        )
