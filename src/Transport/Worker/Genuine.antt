-- ===== src/Transport/Worker/Genuine.antt =====
-- src/sync_transport/worker.rs: where the domain events of a whole run come from.
use rusteyes.Common.{◌≡◌, ◌⊎◌, refl, sym, subst, List, [], ◌∷◌, All, inl, inr}
use rusteyes.Common.Equality.{Equality}
use rusteyes.Protocol.{Bytes, PeerId, SyncEvent, event, SyncMessage}
use rusteyes.Protocol.Wire.{Codec, IsFaithful}
use rusteyes.Protocol.Authentic.{IsAuthentic}
use rusteyes.Transport.Session.{TransportSession}
use rusteyes.Transport.Connections.{incoming, outgoing}
use rusteyes.Transport.Connections.Operations.{record_endpoint}
use rusteyes.Transport.Worker.{
  TransportIoEvent, wake, connected, connect_failed, accepted_from, disconnected, received,
  WorkerState, new,
}
use rusteyes.Transport.Worker.Sending.{
  Network, TransportCommand, handle_network_event, round, rounds,
}
use rusteyes.Transport.Worker.Quiet.{
  delivered, Quiet, close_endpoint-Quiet, send_hello-Quiet, handle_transport_commands-Quiet,
}
use rusteyes.Transport.Worker.Authenticity.{
  Delivery, silent, delivers, handle_peer_message-Delivery,
}

-- The frame arrives in the round, or in one of the rounds.
abbrev pub Arrives : {E : Type 0} → Bytes → TransportIoEvent E → Type 0
Arrives bytes wake = ⊥
Arrives bytes (connected endpoint) = ⊥
Arrives bytes (connect_failed endpoint) = ⊥
Arrives bytes (accepted_from endpoint) = ⊥
Arrives bytes (received endpoint frame) = frame ≡ bytes
Arrives bytes (disconnected endpoint) = ⊥

abbrev pub ArrivesIn :
    {E : Type 0} → Bytes → List (TransportIoEvent E × List TransportCommand) → Type 0
ArrivesIn bytes [] = ⊥
ArrivesIn bytes ((input, commands) ∷ rest) = Arrives bytes input ⊎ ArrivesIn bytes rest

-- The event of the peer is that of an authentic frame of the peer that arrived.
abbrev pub IsGenuine :
    {E : Type 0}
    → Codec
    → Bytes
    → List (TransportIoEvent E × List TransportCommand)
    → PeerId × SyncEvent
    → Type 0
IsGenuine c secret inputs (peer, ev) =
    (bytes : Bytes) × (m : SyncMessage) × ArrivesIn bytes inputs
    × IsAuthentic c bytes secret m
    × (m.sender ≡ peer)
    × (m.payload ≡ event ev)

module _ {E : Type 0} ⦃e : Equality E⦄ (c : Codec) (network : Network E)
    (P : PeerId × SyncEvent → Type 0) (secret : Bytes) where
  -- Every authentic event among the frames has the property.
  abbrev Grants : List (TransportIoEvent E × List TransportCommand) → Type 0
  Grants inputs =
      (bytes : Bytes) (m : SyncMessage) (ev : SyncEvent)
      → ArrivesIn bytes inputs
      → IsAuthentic c bytes secret m
      → m.payload ≡ event ev
      → P (m.sender, ev)

  -- All the domain events of the worker, under its secret, have the property.
  record Holds (w : WorkerState E) : Type 0 where
    secret_is : w.session.shared_secret ≡ secret
    all : All P (delivered w.events)

  Quiet-Holds : {w after : WorkerState E} → Quiet w after → Holds w → Holds after
  Quiet-Holds q h = record {
    secret_is = rw (q.same_secret) h.secret_is;
    all = subst (All P) (sym q.same_delivered) h.all;
  }

  Delivery-Holds :
      {endpoint : E} {bytes : Bytes} {w after : WorkerState E}
      → Delivery c endpoint bytes w after
      → ((m : SyncMessage) (ev : SyncEvent)
          → IsAuthentic c bytes secret m
          → m.payload ≡ event ev
          → P (m.sender, ev))
      → Holds w
      → Holds after
  Delivery-Holds (silent after q) grants h = Quiet-Holds q h
  Delivery-Holds {bytes = bytes} (delivers after m ev authentic is_event from same now) grants h =
      record {
        secret_is = rw same h.secret_is;
        all = subst (All P) (sym now) (
          grants m ev (subst (λ k. IsAuthentic c bytes k m) h.secret_is authentic) is_event,
          h.all,
        );
      }

  round-Holds :
      (input : TransportIoEvent E) (commands : List TransportCommand) (w : WorkerState E)
      → IsFaithful c
      → ((bytes : Bytes) (m : SyncMessage) (ev : SyncEvent)
          → Arrives bytes input
          → IsAuthentic c bytes secret m
          → m.payload ≡ event ev
          → P (m.sender, ev))
      → Holds w
      → Holds (round c network input commands w)
  unfolding round handle_network_event
  round-Holds wake commands w faithful grants h =
      Quiet-Holds (handle_transport_commands-Quiet c network commands w) h
  round-Holds (connected endpoint) commands w faithful grants h =
      let q =
        send_hello-Quiet c network endpoint
          (record w { tracker = record_endpoint endpoint outgoing w.tracker }) in
      Quiet-Holds (record { same_secret = q.same_secret; same_delivered = q.same_delivered }) h
  round-Holds (connect_failed endpoint) commands w faithful grants h =
      Quiet-Holds (close_endpoint-Quiet endpoint w) h
  round-Holds (accepted_from endpoint) commands w faithful grants h =
      let q =
        send_hello-Quiet c network endpoint
          (record w { tracker = record_endpoint endpoint incoming w.tracker }) in
      Quiet-Holds (record { same_secret = q.same_secret; same_delivered = q.same_delivered }) h
  round-Holds (received endpoint bytes) commands w faithful grants h =
      Delivery-Holds (handle_peer_message-Delivery c endpoint bytes w faithful)
        (λ m ev. grants bytes m ev refl) h
  round-Holds (disconnected endpoint) commands w faithful grants h =
      Quiet-Holds (close_endpoint-Quiet endpoint w) h

  rounds-Holds :
      (inputs : List (TransportIoEvent E × List TransportCommand)) (w : WorkerState E)
      → IsFaithful c
      → Grants inputs
      → Holds w
      → Holds (rounds c network inputs w)
  unfolding rounds
  rounds-Holds [] w faithful grants h = h
  rounds-Holds ((input, commands) ∷ rest) w faithful grants h =
      rounds-Holds rest (round c network input commands w) faithful
        (λ bytes m ev later. grants bytes m ev (inr later))
        (round-Holds input commands w faithful (λ bytes m ev now. grants bytes m ev (inl now)) h)

-- Whatever arrives and whatever is sent, every domain event that a worker hands to the runtime is
-- that of a frame which arrived, which carries the right MAC under the worker's own secret, and whose
-- sender is the peer that the event is handed on for.
pub rounds-IsGenuine :
    {E : Type 0} ⦃e : Equality E⦄ (c : Codec) (network : Network E) (session : TransportSession)
    (inputs : List (TransportIoEvent E × List TransportCommand))
    → IsFaithful c
    → All
        (IsGenuine c session.shared_secret inputs)
        (delivered (rounds c network inputs (new session)).events)
unfolding new
rounds-IsGenuine c network session inputs faithful =
    let h : Holds c network (IsGenuine c session.shared_secret inputs) session.shared_secret
        (rounds c network inputs (new session)) =
      rounds-Holds c network (IsGenuine c session.shared_secret inputs) session.shared_secret inputs
        (new session) faithful
        (λ bytes m ev here authentic is_event. (bytes, m, here, authentic, refl, is_event))
        (record { secret_is = refl; all = tt }) in
    h.all
