-- ===== src/Tests/Greetings.antt =====
-- The theorems on the worker at a run in which a peer says hello and sends an event.
use rusteyes.Common.{
  ℕ, ◌+◌, ◌%◌, ◌<◌, ◌≡◌, refl, sym, subst, ◌∙◌, Bool, true, false, ◌&&◌, List, [], ◌∷◌, All, arith,
  if◌then◌else◌, ◌==◌, ==_iff, length,
}
use rusteyes.Common.Text.{Text, text, text_eq, text_eq_iff, text_key}
use rusteyes.Common.Equality.{word_equality}
use rusteyes.Common.Utf8.{is_utf8}
use rusteyes.Common.Result.{Result, ok, err, ok-subst, ok_injective}
use rusteyes.Protocol.{Bytes, mac_bytes, SyncFramePayload, peer_hello, event, SyncMessage}
use rusteyes.Protocol.Hex.{encode_hex, IsByte}
use rusteyes.Protocol.Wire.{Codec, IsFaithful, serialize}
use rusteyes.Runtime.{domain, peer_authenticated, peer_disconnected}
use rusteyes.Transport.Session.{TransportSession, decode_message, encode_event}
use rusteyes.Transport.Connections.{ConnectionTracker}
use rusteyes.Transport.Connections.Operations.{authenticate_peer, peer_for_endpoint}
use rusteyes.Protocol.Authentication.{encode_authenticated, decode_authenticated}
use rusteyes.Transport.Worker.{
  new, sent, emit_authentication, close_untracked_endpoints, TransportIoEvent, wake, accepted_from,
  received, disconnected,
}
use rusteyes.Transport.Worker.Sending.{Network, TransportCommand, broadcast, rounds}
use rusteyes.Transport.Worker.Genuine.{IsGenuine, rounds-IsGenuine}
use rusteyes.Transport.Worker.Peers.{IsAnnounced, IsSteady}
use rusteyes.Transport.Worker.Announced.{SteadyPayload, SteadyRounds, rounds-IsAnnounced}
use rusteyes.Tests.Codecs.{
  sample_id, sample_secret, sample_event, is_message, is_message_sound, written, zeros,
}

-- The hello that the codec writes, beside the event of the other codec.
abbrev greeting : SyncMessage
greeting = record {
  version = 6;
  sender = encode_hex sample_id;
  sequence = 0;
  payload = peer_hello (encode_hex zeros);
}

abbrev is_hello : SyncFramePayload → Bool
is_hello (peer_hello compatibility) = text_eq compatibility (encode_hex zeros)
is_hello (event ev) = false

is_hello_sound : (p : SyncFramePayload) → is_hello p ≡ true → p ≡ peer_hello (encode_hex zeros)
is_hello_sound (peer_hello compatibility) h =
    ground (arith, text_eq_iff compatibility (encode_hex zeros))
is_hello_sound (event ev) h = cc

abbrev is_greeting : SyncMessage → Bool
is_greeting m =
    ((m.version == 6) && text_eq m.sender (encode_hex sample_id))
    && ((m.sequence == 0) && is_hello m.payload)

is_greeting_sound : (m : SyncMessage) → is_greeting m ≡ true → m ≡ greeting
is_greeting_sound m h = ground (
  arith,
  text_eq_iff m.sender (encode_hex sample_id),
  is_hello_sound m.payload,
  ==_iff m.version 6,
  ==_iff m.sequence 0,
)

-- A frame is a letter for the message and the text of the MAC.
abbrev write_either : SyncMessage → Text → Result Text Bytes
write_either m mac =
    if is_utf8 mac
    then (if is_greeting m
        then ok (b'h' ∷ mac)
        else if is_message 1000 m
        then ok (b'e' ∷ mac)
        else err (text "unknown message"))
    else err (text "no text")

abbrev read_either : Bytes → Result Text (SyncMessage × Text)
read_either [] = err (text "no frame")
read_either (b ∷ mac) = if b == b'h' then ok (greeting, mac) else ok (written 1000, mac)

utf8_after : (b : ℕ) (mac : Bytes) → b < 128 → is_utf8 (b ∷ mac) ≡ is_utf8 mac
unfolding is_utf8
utf8_after b mac small = ground arith

-- A MAC starts with a sum over what is authenticated.
abbrev rest_of_mac : Bytes
rest_of_mac =
    0 ∷ 0 ∷ 0 ∷ 0 ∷ 0 ∷ 0 ∷ 0 ∷ 0 ∷ 0 ∷ 0 ∷ 0 ∷ 0 ∷ 0 ∷ 0 ∷ 0 ∷ 0 ∷ 0 ∷ 0 ∷ 0 ∷ 0 ∷ 0 ∷ 0 ∷ 0 ∷ 0
    ∷ 0 ∷ 0 ∷ 0 ∷ 0 ∷ 0 ∷ 0 ∷ 0 ∷ []

abbrev sum : Bytes → ℕ
sum [] = 0
sum (b ∷ bytes) = b + sum bytes

abbrev greeting_codec : Codec
greeting_codec = record {
  to_vec = λ m. ok (m.version ∷ m.sequence ∷ m.sender);
  to_string = write_either;
  from_str = read_either;
  out_of_range = text "out of range";
  custom = λ e. text "invalid";
  hmac = λ key payload. ok ((sum key + sum payload) % 256 ∷ rest_of_mac);
}

greeting_codec-IsFaithful : IsFaithful greeting_codec
greeting_codec-IsFaithful = record {
  reads_back = λ m mac s h. ground (arith, is_greeting_sound m, is_message_sound 1000 m);
  is_text = λ m mac s h.
      ground (arith, utf8_after b'h' mac (omega arith), utf8_after b'e' mac (omega arith));
  mac_size = λ key payload mac h. ok-subst (λ bytes. length bytes ≡ mac_bytes) h refl;
  mac_is_bytes = λ key payload mac h. ok-subst (All IsByte) h (omega arith, omega arith);
}

abbrev frame_of : ℕ → ℕ → Bytes
frame_of letter sequence =
    letter
    ∷ encode_hex
        ((sum sample_secret + sum (6 ∷ sequence ∷ encode_hex sample_id)) % 256 ∷ rest_of_mac)

abbrev hello_frame : Bytes
hello_frame = frame_of b'h' 0

abbrev event_frame : Bytes
event_frame = frame_of b'e' 1

abbrev greeted_session : TransportSession
greeted_session = record {
  self_id = 9 ∷ [];
  shared_secret = sample_secret;
  compatibility = zeros;
  hello_payload = [];
  next_sequence = 1;
}

abbrev quiet_network : Network ℕ
quiet_network calls endpoint payload = sent

-- A peer connects, says hello and goes; it comes back, says hello twice and sends an event twice.
abbrev greeting_inputs : List (TransportIoEvent ℕ × List TransportCommand)
greeting_inputs =
    (accepted_from 7, [])
    ∷ (received 7 hello_frame, [])
    ∷ (disconnected 7, [])
    ∷ (accepted_from 8, [])
    ∷ (received 8 hello_frame, [])
    ∷ (received 8 hello_frame, [])
    ∷ (wake, broadcast sample_event ∷ [])
    ∷ (received 8 event_frame, [])
    ∷ (received 8 event_frame, [])
    ∷ []

abbrev hello_message : SyncMessage
hello_message = record { version = 6; sender = sample_id; sequence = 0; payload = peer_hello zeros }

abbrev sent_message : SyncMessage
sent_message = record {
  version = 6;
  sender = sample_id;
  sequence = 1;
  payload = event sample_event;
}

decoded_hello : decode_message greeting_codec hello_frame greeted_session ≡ ok hello_message
unfolding decode_message encode_hex is_utf8 decode_authenticated serialize
decoded_hello = refl

decoded_event : decode_message greeting_codec event_frame greeted_session ≡ ok sent_message
unfolding decode_message encode_hex is_utf8 decode_authenticated serialize
decoded_event = refl

-- The one event that the run hands to the runtime is shown to be genuine; its replay is not handed on.
rounds-IsGenuine_example :
    All (IsGenuine greeting_codec sample_secret greeting_inputs) ((sample_id, sample_event) ∷ [])
unfolding rounds new encode_hex decode_message is_utf8 decode_authenticated serialize encode_event
    emit_authentication authenticate_peer close_untracked_endpoints encode_authenticated
rounds-IsGenuine_example =
    rounds-IsGenuine greeting_codec quiet_network greeted_session greeting_inputs
      greeting_codec-IsFaithful

steady_hello :
    (endpoint : ℕ) (t : ConnectionTracker ℕ)
    → IsSteady endpoint sample_id t
    → (m : SyncMessage) → decode_message greeting_codec hello_frame greeted_session ≡ ok m
    → SteadyPayload endpoint m.sender m.payload t
steady_hello endpoint t steady m h =
    subst (λ n. SteadyPayload endpoint n.sender n.payload t) (ok_injective (sym decoded_hello ∙ h))
      steady

steady_event :
    (endpoint : ℕ) (t : ConnectionTracker ℕ) (m : SyncMessage)
    → decode_message greeting_codec event_frame greeted_session ≡ ok m
    → SteadyPayload endpoint m.sender m.payload t
steady_event endpoint t m h =
    subst (λ n. SteadyPayload endpoint n.sender n.payload t) (ok_injective (sym decoded_event ∙ h))
      tt

-- Of the two hellos on the second connection, the later one comes while its peer is authenticated.
greeting_rounds_are_steady :
    SteadyRounds greeting_codec quiet_network greeting_inputs (new greeted_session)
unfolding rounds new encode_hex decode_message is_utf8 decode_authenticated serialize encode_event
    emit_authentication authenticate_peer close_untracked_endpoints encode_authenticated
    peer_for_endpoint
greeting_rounds_are_steady = (
  tt,
  (
    steady_hello 7 _ (λ other e. cc),
    (
      tt,
      (
        tt,
        (
          steady_hello 8 _ (λ other e. cc),
          (steady_hello 8 _ (λ other e. cc), (tt, (steady_event 8 _, (steady_event 8 _, tt)))),
        ),
      ),
    ),
  ),
)

-- The runtime is told of the peer, of its going and of its return.
rounds-IsAnnounced_example :
    (let w = rounds greeting_codec quiet_network greeting_inputs (new greeted_session) in
      IsAnnounced
        (domain sample_id sample_event
          ∷ peer_authenticated sample_id
          ∷ peer_disconnected sample_id
          ∷ peer_authenticated sample_id
          ∷ [])
        w.tracker)
unfolding rounds new encode_hex decode_message is_utf8 decode_authenticated serialize encode_event
    emit_authentication authenticate_peer close_untracked_endpoints encode_authenticated
rounds-IsAnnounced_example =
    rounds-IsAnnounced greeting_codec quiet_network greeted_session greeting_inputs
      greeting_rounds_are_steady
