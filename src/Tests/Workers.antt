-- ===== src/Tests/Workers.antt =====
-- The theorems on the transport's worker at concrete runs.
use rusteyes.Common.{ℕ, ◌+◌, ◌==◌, if◌then◌else◌, ◌≡◌, refl, none, some, [], ◌∷◌, arith}
use rusteyes.Common.Text.{text_key}
use rusteyes.Common.Equality.{word_equality}
use rusteyes.Common.Map.{get}
use rusteyes.Common.Result.{ok}
use rusteyes.Protocol.Hex.{encode_hex}
use rusteyes.Protocol.Wire.{serialize}
use rusteyes.Common.Utf8.{is_utf8}
use rusteyes.Protocol.Messages.{validate_event}
use rusteyes.Protocol.Authentication.{encode_authenticated}
use rusteyes.Transport.Session.{TransportSession, encode_event}
use rusteyes.Transport.Connections.{incoming, outgoing, authenticated_endpoints, connection}
use rusteyes.Transport.Connections.Operations.{peer_for_endpoint}
use rusteyes.Transport.Delivery.{
  IsListening, EncodeOutcome, encode_events, handle_peer_messages, arrivals,
  encode_event-EncodeOutcome, encode_events-arrivals,
}
use rusteyes.Transport.Worker.{WorkerState, sent, resource_not_found}
use rusteyes.Transport.Worker.Sending.{Network, broadcast_domain_event}
use rusteyes.Transport.Worker.Broadcast.{sent_frames, removal_count, broadcast_domain_event-reaches}
use rusteyes.Tests.Codecs.{
  sample_codec, sample_codec-IsFaithful, sample_id, sample_id_IsFixed, sample_secret, sample_event,
  sample_frame,
}

-- The session of the sender, and that of the worker that listens.
abbrev sender_session : TransportSession
sender_session = record {
  self_id = sample_id;
  shared_secret = sample_secret;
  compatibility = [];
  hello_payload = [];
  next_sequence = 1;
}

abbrev other_session : TransportSession
other_session = record {
  self_id = 9 ∷ [];
  shared_secret = sample_secret;
  compatibility = [];
  hello_payload = [];
  next_sequence = 1;
}

abbrev listening_worker : WorkerState ℕ
listening_worker = record {
  session = other_session;
  tracker = record {
    self_id = 9 ∷ [];
    connections = (record { endpoint = 7; direction = incoming; peer_id = some sample_id }) ∷ [];
    highest_accepted_sequences = [];
  };
  calls = [];
  events = [];
}

encode_event-EncodeOutcome_example :
    EncodeOutcome
      (sample_codec 1000)
      sample_event
      sender_session
      (encode_event (sample_codec 1000) sample_event sender_session)
encode_event-EncodeOutcome_example =
    encode_event-EncodeOutcome (sample_codec 1000) sample_event sender_session

sample-IsListening : IsListening 7 sender_session listening_worker
unfolding peer_for_endpoint connection get
sample-IsListening = record { same_secret = refl; is_peer = refl; is_behind = λ highest h. cc }

sample_payloads :
    (encode_events (sample_codec 1000) (sample_event ∷ []) sender_session).1
    ≡ ok (sample_frame ∷ [])
unfolding encode_events encode_event encode_authenticated serialize is_utf8 encode_hex
sample_payloads = refl

encode_events-arrivals_example :
    (handle_peer_messages (sample_codec 1000) 7 (sample_frame ∷ []) listening_worker).events
    ≡ arrivals sample_id (sample_event ∷ []) []
encode_events-arrivals_example =
    encode_events-arrivals (sample_codec 1000) 7 (sample_event ∷ []) sender_session listening_worker
      (sample_frame ∷ []) (sample_codec-IsFaithful 1000) sample_id_IsFixed (omega arith)
      (unfold validate_event in (refl, tt)) sample-IsListening sample_payloads

-- A network that loses one of two peers.
abbrev losing_network : Network ℕ
losing_network calls endpoint payload = if endpoint == 5 then resource_not_found else sent

abbrev sending_worker : WorkerState ℕ
sending_worker = record {
  session = sender_session;
  tracker = record {
    self_id = sample_id;
    connections =
        (record { endpoint = 7; direction = incoming; peer_id = some (9 ∷ []) })
        ∷ (record { endpoint = 6; direction = incoming; peer_id = none })
        ∷ (record { endpoint = 5; direction = outgoing; peer_id = some (8 ∷ []) })
        ∷ [];
    highest_accepted_sequences = [];
  };
  calls = [];
  events = [];
}

sample_encoding :
    encode_event (sample_codec 1000) sample_event sender_session
    ≡ (record sender_session { next_sequence = 2 }, ok sample_frame)
unfolding encode_event encode_authenticated serialize is_utf8
sample_encoding = refl

broadcast_domain_event-reaches_example :
    (let (end, reply) =
        broadcast_domain_event (sample_codec 1000) losing_network sample_event sending_worker in
      (sent_frames end.calls ≡ (5, sample_frame) ∷ (7, sample_frame) ∷ [])
      × (n : ℕ) × (reply ≡ ok n)
      × (n + removal_count end.calls ≡ 2))
unfolding authenticated_endpoints
broadcast_domain_event-reaches_example =
    broadcast_domain_event-reaches (sample_codec 1000) losing_network sample_event sending_worker
      (record sender_session { next_sequence = 2 }) sample_frame sample_encoding
