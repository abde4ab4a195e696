-- ===== src/Transport/Worker/Authenticity.antt =====
-- src/sync_transport/worker.rs: what has to have arrived for a domain event to be handed on.
use rusteyes.Common.{
  ℕ, ◌≡◌, refl, sym, ap, ◌∙◌, Option, some, ◌∷◌, Bool-cases, Option-cases, inl, inr,
}
use rusteyes.Common.Text.{text_key, text_eq, text_eq_iff}
use rusteyes.Common.Map.{get}
use rusteyes.Common.Utf8.{is_utf8}
use rusteyes.Common.Result.{ok, map_err-eq-ok, Result-cases, ok-ne-err}
use rusteyes.Common.Equality.{Equality}
use rusteyes.Protocol.{Bytes, PeerId, SyncEvent, SyncFramePayload, peer_hello, event, SyncMessage}
use rusteyes.Protocol.Wire.{Codec, IsFaithful}
use rusteyes.Protocol.Authentication.{decode_authenticated}
use rusteyes.Protocol.Authentic.{IsAuthentic, decode_authenticated-IsAuthentic}
use rusteyes.Transport.Session.{TransportSession, decode_message, frame_protocol}
use rusteyes.Transport.Connections.{
  ConnectionTracker, InboundEventAcceptance, accepted, unauthenticated, sender_mismatch, replayed,
}
use rusteyes.Transport.Connections.Operations.{peer_for_endpoint, accept_inbound_event, accept_from}
use rusteyes.Transport.Worker.{
  WorkerState, handle_acceptance, handle_domain_event, handle_payload, handle_decoded,
  handle_peer_message,
}
use rusteyes.Transport.Worker.Quiet.{
  delivered, Quiet, close_endpoint-Quiet, handle_peer_hello-Quiet,
}

decode_message-IsAuthentic :
    (c : Codec) (bytes : Bytes) (s : TransportSession) (m : SyncMessage)
    → IsFaithful c
    → decode_message c bytes s ≡ ok m
    → IsAuthentic c bytes s.shared_secret m
unfolding decode_message
decode_message-IsAuthentic c bytes s m faithful h = elim (Bool-cases (is_utf8 bytes)) [
  | inl text ↦
      decode_authenticated-IsAuthentic c bytes s.shared_secret m faithful
        (map_err-eq-ok frame_protocol (decode_authenticated c bytes s.shared_secret) (rw text at h))
  | inr other ↦ absurd (ok-ne-err (sym (rw other at h)))
]

-- What a frame can do to the domain events: it hands none on, or its own, of a message that is
-- authentic, from the peer that the endpoint is authenticated as.
pub data Delivery {E : Type 0} ⦃e : Equality E⦄ (c : Codec) (endpoint : E) (bytes : Bytes)
    (w : WorkerState E) : WorkerState E → Type 0 where
  silent : (after : WorkerState E) → Quiet w after → Delivery c endpoint bytes w after
  delivers :
      (after : WorkerState E) (m : SyncMessage) (ev : SyncEvent)
      → IsAuthentic c bytes w.session.shared_secret m
      → m.payload ≡ event ev
      → peer_for_endpoint endpoint w.tracker.connections ≡ some m.sender
      → after.session.shared_secret ≡ w.session.shared_secret
      → delivered after.events ≡ (m.sender, ev) ∷ delivered w.events
      → Delivery c endpoint bytes w after

module _ {E : Type 0} ⦃e : Equality E⦄ where
  accept_from-sender :
      (peer sender : PeerId) (sequence : ℕ) (seen : Option ℕ) (t : ConnectionTracker E)
      → (accept_from peer sender sequence seen t).1 ≡ accepted
      → peer ≡ sender
  unfolding accept_from
  accept_from-sender peer sender sequence seen t h = elim (Bool-cases (text_eq peer sender)) [
    | inl hit ↦ (text_eq_iff peer sender).0 hit
    | inr miss ↦ absurd (let refused : sender_mismatch peer ≡ accepted = rw miss at h in cc)
  ]

  -- Only an event from the peer that the endpoint is authenticated as is accepted.
  accepted-sender :
      (endpoint : E) (sender : PeerId) (sequence : ℕ) (t : ConnectionTracker E)
      → (accept_inbound_event endpoint sender sequence t).1 ≡ accepted
      → peer_for_endpoint endpoint t.connections ≡ some sender
  unfolding accept_inbound_event
  accepted-sender endpoint sender sequence t h =
      elim (Option-cases (peer_for_endpoint endpoint t.connections)) [
        | inl missing ↦
            absurd
              (let u : unauthenticated ≡ accepted = rw (missing, accept_inbound_event) at h in cc)
        | inr (peer, found) ↦
            found
            ∙ ap some (
                accept_from-sender peer sender sequence (get peer t.highest_accepted_sequences) t
                  (rw (found, accept_inbound_event) at h))
      ]

  module _ (c : Codec) where
    handle_acceptance-Delivery :
        (acceptance : InboundEventAcceptance) (endpoint : E) (bytes : Bytes) (m : SyncMessage)
        (ev : SyncEvent) (t : ConnectionTracker E) (w : WorkerState E)
        → IsAuthentic c bytes w.session.shared_secret m
        → m.payload ≡ event ev
        → (acceptance ≡ accepted → peer_for_endpoint endpoint w.tracker.connections ≡ some m.sender)
        → Delivery c endpoint bytes w
            (handle_acceptance acceptance endpoint m.sender ev (record w { tracker = t }))
    unfolding handle_acceptance
    handle_acceptance-Delivery accepted endpoint bytes m ev t w authentic is_event from =
        delivers _ m ev authentic is_event (from refl) refl refl
    handle_acceptance-Delivery unauthenticated endpoint bytes m ev t w authentic is_event from =
        silent _ (
          let q = close_endpoint-Quiet endpoint (record w { tracker = t }) in
          record { same_secret = q.same_secret; same_delivered = q.same_delivered })
    handle_acceptance-Delivery (sender_mismatch peer) endpoint bytes m ev t w authentic is_event
          from =
        silent _ (
          let q = close_endpoint-Quiet endpoint (record w { tracker = t }) in
          record { same_secret = q.same_secret; same_delivered = q.same_delivered })
    handle_acceptance-Delivery (replayed highest) endpoint bytes m ev t w authentic is_event from =
        silent _ (record { same_secret = refl; same_delivered = refl })

    handle_payload-Delivery :
        (payload : SyncFramePayload) (endpoint : E) (bytes : Bytes) (m : SyncMessage)
        (w : WorkerState E)
        → m.payload ≡ payload
        → IsAuthentic c bytes w.session.shared_secret m
        → Delivery c endpoint bytes w (handle_payload payload endpoint m.sender m.sequence w)
    unfolding handle_payload handle_domain_event
    handle_payload-Delivery (peer_hello compatibility) endpoint bytes m w is_payload authentic =
        silent _ (handle_peer_hello-Quiet endpoint m.sender compatibility w)
    handle_payload-Delivery (event ev) endpoint bytes m w is_payload authentic =
        let (t, acceptance) = accept_inbound_event endpoint m.sender m.sequence w.tracker in
        handle_acceptance-Delivery acceptance endpoint bytes m ev t w authentic is_payload
          (accepted-sender endpoint m.sender m.sequence w.tracker)

    -- Of a frame that arrives, at most one domain event is handed to the runtime, and only if the
    -- frame decodes under the session's secret to a valid message of that event with the right MAC,
    -- and the message's sender is the peer that the endpoint is authenticated as.
    pub handle_peer_message-Delivery :
        (endpoint : E) (bytes : Bytes) (w : WorkerState E)
        → IsFaithful c
        → Delivery c endpoint bytes w (handle_peer_message c endpoint bytes w)
    unfolding handle_peer_message handle_decoded
    handle_peer_message-Delivery endpoint bytes w faithful =
        elim (Result-cases (decode_message c bytes w.session)) [
          | inl (m, decoded) ↦ rw decoded (
              handle_payload-Delivery m.payload endpoint bytes m w refl
                (decode_message-IsAuthentic c bytes w.session m faithful decoded))
          | inr (error, refused) ↦ rw refused (silent _ (close_endpoint-Quiet endpoint w))
        ]
