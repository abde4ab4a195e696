-- ===== src/Transport/Delivery.antt =====
-- src/sync_transport/session.rs and src/sync_transport/worker.rs: the events that one peer's session
-- encodes, handled by another peer's worker.
use rusteyes.Common.{
  ℕ, ◌+◌, ◌<◌, ◌≡◌, ◌≢◌, refl, ap, subst, ◌∙◌, true, false, some, List, [], ◌∷◌, All, arith,
  Bool-cases, Option-cases, inl, inr, ◌==◌, leb,
}
use rusteyes.Common.Text.{text_key, text_eq, text_eq_iff}
use rusteyes.Common.Map.{get, insert, get-insert}
use rusteyes.Common.Words.{word_max}
use rusteyes.Common.Utf8.{is_utf8}
use rusteyes.Common.Result.{Result, ok, err, ◌>>=◌, Result-cases, ok_injective, >>=-eq-ok}
use rusteyes.Common.Equality.{Equality}
use rusteyes.Protocol.{Bytes, PeerId, peer_id_bytes, SyncEvent, SyncMessage}
use rusteyes.Protocol.Messages.{event_message, validate, validate_event, validate-event_message}
use rusteyes.Protocol.Wire.{Codec, IsFaithful}
use rusteyes.Protocol.Authentication.{encode_authenticated, decode_authenticated}
use rusteyes.Protocol.RoundTrip.{
  IsFixed, IsSized, whole, whole_event, encode_authenticated-is_utf8,
  decode_authenticated-encode_authenticated,
}
use rusteyes.Runtime.{SyncTransportEvent, domain}
use rusteyes.Transport.{SyncTransportError, protocol, sequence_exhausted}
use rusteyes.Transport.Session.{TransportSession, encode_event, encoded, decode_message}
use rusteyes.Transport.Connections.{accepted}
use rusteyes.Transport.Connections.Operations.{peer_for_endpoint, accept_inbound_event, accept_from}
use rusteyes.Transport.Worker.{
  WorkerState, handle_peer_message, handle_decoded, handle_payload, handle_domain_event, emit,
}

-- How `encode_event` can end: it fails and leaves the session as it is, or the payload is the event's
-- message under the session's next sequence number, which goes up by one and stays a u64.
pub data EncodeOutcome (c : Codec) (ev : SyncEvent) (s : TransportSession)
    : TransportSession × Result SyncTransportError Bytes → Type 0 where
  refused : (error : SyncTransportError) → EncodeOutcome c ev s (s, err error)
  stamped :
      (payload : Bytes)
      → s.next_sequence ≢ word_max
      → encode_authenticated c (event_message s.self_id s.next_sequence ev) s.shared_secret
        ≡ ok payload
      → EncodeOutcome c ev s (record s { next_sequence = s.next_sequence + 1 }, ok payload)

module _ (c : Codec) where
  -- A session's event is refused and changes nothing, or it is encoded under the next sequence
  -- number, which then goes up by one; the last u64 is never given out.
  pub encode_event-EncodeOutcome :
      (ev : SyncEvent) (s : TransportSession) → EncodeOutcome c ev s (encode_event c ev s)
  unfolding encode_event encoded
  encode_event-EncodeOutcome ev s = elim (Bool-cases (s.next_sequence == word_max)) [
    | inl last ↦ rw last (refused sequence_exhausted)
    | inr more ↦
        elim (Result-cases
          (encode_authenticated c (event_message s.self_id s.next_sequence ev) s.shared_secret)) [
            | inr (error, e) ↦ rw (more, e) (refused (protocol error))
            | inl (payload, e) ↦ rw (more, e) (stamped payload (λ h. ground arith) e)
          ]
  ]

  decode_message-encoded :
      (ev : SyncEvent) (s t : TransportSession) (payload : Bytes)
      → IsFaithful c
      → IsFixed peer_id_bytes s.self_id
      → 0 < s.next_sequence
      → t.shared_secret ≡ s.shared_secret
      → validate_event (whole_event ev) ≡ ok tt
      → encode_authenticated c (event_message s.self_id s.next_sequence ev) s.shared_secret
        ≡ ok payload
      → decode_message c payload t ≡ ok (event_message s.self_id s.next_sequence (whole_event ev))
  unfolding decode_message
  decode_message-encoded ev s t payload faithful sized some_sequence secret valid e =
      let m : SyncMessage = event_message s.self_id s.next_sequence ev in
      let text : is_utf8 payload ≡ true =
        encode_authenticated-is_utf8 c m s.shared_secret payload faithful e in
      let sizes : IsSized m = unfold event_message in (sized, tt) in
      let fine : validate (whole m) ≡ ok tt =
        unfold event_message in
        validate-event_message s.self_id s.next_sequence (whole_event ev) some_sequence ∙ valid in
      let read : decode_authenticated c payload s.shared_secret ≡ ok (whole m) =
        decode_authenticated-encode_authenticated c m s.shared_secret payload faithful sizes e
        ∙ (rw fine refl) in
      rw (text, secret, read) (unfold event_message in refl)

  -- The payloads of a session's events, one after the other; the first error ends it.
  unfoldable pub encode_events :
      List SyncEvent → TransportSession → TransportSession × Result SyncTransportError (List Bytes)
  encode_events [] s = (s, ok [])
  encode_events (ev ∷ evs) s =
      let (next, payload) = encode_event c ev s in
      let (end, payloads) = encode_events evs next in
      (end, payload >>= λ p. payloads >>= λ ps. ok (p ∷ ps))

  encoded-made :
      (ev : SyncEvent) (s : TransportSession)
      {end : TransportSession × Result SyncTransportError Bytes} (payload : Bytes)
      → EncodeOutcome c ev s end
      → end.1 ≡ ok payload
      → (encode_authenticated c (event_message s.self_id s.next_sequence ev) s.shared_secret
          ≡ ok payload)
        × (end.0 ≡ record s { next_sequence = s.next_sequence + 1 })
  encoded-made ev s payload (refused error) h = cc
  encoded-made ev s payload (stamped written more made) h = (made ∙ ap ok (ok_injective h), refl)

-- The log of the worker's events with those of a peer before it, the last in front.
abbrev pub arrivals : PeerId → List SyncEvent → List SyncTransportEvent → List SyncTransportEvent
arrivals peer [] log = log
arrivals peer (ev ∷ evs) log = arrivals peer evs (domain peer (whole_event ev) ∷ log)

module _ {E : Type 0} ⦃e : Equality E⦄ where
  -- The endpoint is authenticated as the session's peer, the secrets are the same, and no sequence
  -- number that the session has yet to give out was accepted.
  pub record IsListening (endpoint : E) (s : TransportSession) (w : WorkerState E) : Type 0 where
    pub same_secret : w.session.shared_secret ≡ s.shared_secret
    pub is_peer : peer_for_endpoint endpoint w.tracker.connections ≡ some s.self_id
    pub is_behind :
        (highest : ℕ)
        → get s.self_id w.tracker.highest_accepted_sequences ≡ some highest
        → highest < s.next_sequence

  -- An event with a number above those accepted of the sender is accepted.
  accept-fresh :
      (endpoint : E) (s : TransportSession) (w : WorkerState E)
      → IsListening endpoint s w
      → accept_inbound_event endpoint s.self_id s.next_sequence w.tracker ≡ (
        record w.tracker {
          highest_accepted_sequences =
              insert s.self_id s.next_sequence w.tracker.highest_accepted_sequences;
        },
        accepted,
      )
  unfolding accept_inbound_event accept_from
  accept-fresh endpoint s w listening =
      let own : text_eq s.self_id s.self_id ≡ true = (text_eq_iff s.self_id s.self_id).1 refl in
      elim (Option-cases (get s.self_id w.tracker.highest_accepted_sequences)) [
        | inl e ↦ rw (listening.is_peer, accept_inbound_event, own, e, accept_from) refl
        | inr (highest, e) ↦
            let fresh : leb s.next_sequence highest ≡ false =
              let below : highest < s.next_sequence = listening.is_behind highest e in
              ground arith in
            rw (listening.is_peer, accept_inbound_event, own, e, accept_from, fresh) refl
      ]

  module _ (c : Codec) where
    deliver :
        (endpoint : E) (ev : SyncEvent) (s : TransportSession) (w : WorkerState E) (payload : Bytes)
        → IsFaithful c
        → IsFixed peer_id_bytes s.self_id
        → 0 < s.next_sequence
        → validate_event (whole_event ev) ≡ ok tt
        → IsListening endpoint s w
        → encode_authenticated c (event_message s.self_id s.next_sequence ev) s.shared_secret
          ≡ ok payload
        → handle_peer_message c endpoint payload w ≡ record w {
          tracker = record w.tracker {
            highest_accepted_sequences =
                insert s.self_id s.next_sequence w.tracker.highest_accepted_sequences;
          };
          events = domain s.self_id (whole_event ev) ∷ w.events;
        }
    unfolding handle_peer_message handle_decoded handle_payload handle_domain_event emit
        event_message
    deliver endpoint ev s w payload faithful sized some_sequence valid listening made =
        rw
          (
            decode_message-encoded c ev s w.session payload faithful sized some_sequence
                listening.same_secret valid made,
            accept-fresh endpoint s w listening,
          )
          refl

    -- The frames of one endpoint handled in the order in which they arrive.
    pub handle_peer_messages : E → List Bytes → WorkerState E → WorkerState E
    handle_peer_messages endpoint [] w = w
    handle_peer_messages endpoint (payload ∷ payloads) w =
        handle_peer_messages endpoint payloads (handle_peer_message c endpoint payload w)

    IsListening-next :
        (endpoint : E) (s : TransportSession) (w : WorkerState E) (log : List SyncTransportEvent)
        → IsListening endpoint s w
        → IsListening endpoint
            (record s { next_sequence = s.next_sequence + 1 })
            (record w {
              tracker = record w.tracker {
                highest_accepted_sequences =
                    insert s.self_id s.next_sequence w.tracker.highest_accepted_sequences;
              };
              events = log;
            })
    IsListening-next endpoint s w log listening = record {
      same_secret = listening.same_secret;
      is_peer = listening.is_peer;
      is_behind = λ highest found. ground (
        arith,
        get-insert s.self_id s.self_id s.next_sequence w.tracker.highest_accepted_sequences,
        text_eq_iff s.self_id s.self_id,
      );
    }

    -- The events that a session encodes, handled in order at an endpoint which is authenticated as the
    -- session's peer by a worker with the same secret that has accepted none of the sequence numbers yet
    -- to be given out, are all handed to the runtime, each once and in order, with their durations cut
    -- to whole milliseconds. The events are valid after that cut; the session encodes all of them.
    pub encode_events-arrivals :
        (endpoint : E) (evs : List SyncEvent) (s : TransportSession) (w : WorkerState E)
        (payloads : List Bytes)
        → IsFaithful c
        → IsFixed peer_id_bytes s.self_id
        → 0 < s.next_sequence
        → All (λ ev. validate_event (whole_event ev) ≡ ok tt) evs
        → IsListening endpoint s w
        → (encode_events c evs s).1 ≡ ok payloads
        → (handle_peer_messages endpoint payloads w).events ≡ arrivals s.self_id evs w.events
    unfolding encode_events handle_peer_messages
    encode_events-arrivals endpoint [] s w payloads faithful sized some_sequence valid listening h =
        subst (λ ps. (handle_peer_messages endpoint ps w).events ≡ w.events) (ok_injective h) refl
    encode_events-arrivals endpoint (ev ∷ evs) s w payloads faithful sized some_sequence valid
          listening h =
        let next : TransportSession = record s { next_sequence = s.next_sequence + 1 } in
        let tail : Bytes → Result SyncTransportError (List Bytes) =
          λ p. (encode_events c evs (encode_event c ev s).0).1 >>= λ ps. ok (p ∷ ps) in
        let (payload, e1, rest) = >>=-eq-ok (encode_event c ev s).1 tail h in
        let (made, to_next) = encoded-made c ev s payload (encode_event-EncodeOutcome c ev s) e1 in
        let (ps, e2, same) =
          >>=-eq-ok (encode_events c evs (encode_event c ev s).0).1 (λ qs. ok (payload ∷ qs))
            rest in
        let e3 : (encode_events c evs next).1 ≡ ok ps =
          subst (λ t. (encode_events c evs t).1 ≡ ok ps) to_next e2 in
        let after : WorkerState E = record w {
          tracker = record w.tracker {
            highest_accepted_sequences =
                insert s.self_id s.next_sequence w.tracker.highest_accepted_sequences;
          };
          events = domain s.self_id (whole_event ev) ∷ w.events;
        } in
        subst
          (λ qs.
            (handle_peer_messages endpoint qs w).events ≡ arrivals s.self_id (ev ∷ evs) w.events)
          (ok_injective same)
          (rw
            (
              deliver endpoint ev s w payload faithful sized some_sequence valid.0 listening made,
              handle_peer_messages,
            )
            (encode_events-arrivals endpoint evs next after ps faithful sized (omega arith) valid.1
              (IsListening-next endpoint s w after.events listening) e3))
