-- ===== src/Tests/Codecs.antt =====
-- A codec that writes one message, and the theorems on authentication at it.
use rusteyes.Common.{
  ℕ, ◌≡◌, refl, Bool, true, false, ◌&&◌, [], ◌∷◌, All, arith, if◌then◌else◌, ◌==◌, ==_iff, length,
}
use rusteyes.Common.Text.{Text, text, text_eq, text_eq_iff}
use rusteyes.Common.Utf8.{is_utf8}
use rusteyes.Common.Words.{secs}
use rusteyes.Common.Result.{Result, ok, err, ◌>>◌, ok-subst}
use rusteyes.Protocol.{
  Bytes, PeerId, peer_id_bytes, mac_bytes, SyncEvent, active_time_elapsed, break_started,
  scheduler_state, scheduler_reset, disable_for, disable_until_restart, enable,
  lock_after_current_break, SyncFramePayload, peer_hello, event, SyncMessage, zero_duration,
}
use rusteyes.Protocol.Hex.{encode_hex, IsByte}
use rusteyes.Protocol.Messages.{validate, event_message}
use rusteyes.Protocol.Wire.{Codec, IsFaithful, serialize}
use rusteyes.Protocol.Authentication.{encode_authenticated, decode_authenticated}
use rusteyes.Protocol.RoundTrip.{IsFixed, whole, decode_authenticated-encode_authenticated}
use rusteyes.Protocol.Authentic.{IsAuthentic, decode_authenticated-IsAuthentic}
use rusteyes.Protocol.Truncation.{decode_authenticated-sub_millisecond}

abbrev pub sample_id : PeerId
sample_id = 1 ∷ 2 ∷ 3 ∷ 4 ∷ 5 ∷ 6 ∷ 7 ∷ 8 ∷ 9 ∷ 10 ∷ 11 ∷ 12 ∷ 13 ∷ 14 ∷ 15 ∷ 16 ∷ []

abbrev pub sample_secret : Bytes
sample_secret = text "correct horse battery staple"

-- The one payload that the codec writes: a disabling for so many milliseconds.
abbrev is_written : ℕ → SyncFramePayload → Bool
is_written ms (peer_hello compatibility) = false
is_written ms (event (disable_for duration)) = duration == ms
is_written ms (event e) = false

abbrev pub written : ℕ → SyncMessage
written ms = record {
  version = 6;
  sender = encode_hex sample_id;
  sequence = 1;
  payload = event (disable_for ms);
}

abbrev pub is_message : ℕ → SyncMessage → Bool
is_message ms m =
    ((m.version == 6) && text_eq m.sender (encode_hex sample_id))
    && ((m.sequence == 1) && is_written ms m.payload)

abbrev pub zeros : Bytes
zeros =
    0 ∷ 0 ∷ 0 ∷ 0 ∷ 0 ∷ 0 ∷ 0 ∷ 0 ∷ 0 ∷ 0 ∷ 0 ∷ 0 ∷ 0 ∷ 0 ∷ 0 ∷ 0 ∷ 0 ∷ 0 ∷ 0 ∷ 0 ∷ 0 ∷ 0 ∷ 0 ∷ 0
    ∷ 0 ∷ 0 ∷ 0 ∷ 0 ∷ 0 ∷ 0 ∷ 0 ∷ 0 ∷ []

-- A frame is the MAC's text, since the message is known.
abbrev write_frame : ℕ → SyncMessage → Text → Result Text Bytes
write_frame ms m mac =
    if is_message ms m && is_utf8 mac then ok mac else err (text "unknown message")

abbrev pub sample_codec : ℕ → Codec
sample_codec ms = record {
  to_vec = λ m. ok [];
  to_string = write_frame ms;
  from_str = λ s. ok (written ms, s);
  out_of_range = text "out of range";
  custom = λ e. text "invalid";
  hmac = λ key payload. ok zeros;
}

is_written_sound :
    (ms : ℕ) (p : SyncFramePayload) → is_written ms p ≡ true → p ≡ event (disable_for ms)
is_written_sound ms (peer_hello compatibility) h = cc
is_written_sound ms (event (active_time_elapsed elapsed)) h = cc
is_written_sound ms (event (break_started name message started_at_ms origin position)) h = cc
is_written_sound ms (event (scheduler_state slot elapsed slots active)) h = cc
is_written_sound ms (event scheduler_reset) h = cc
is_written_sound ms (event (disable_for duration)) h = ground (arith, ==_iff duration ms)
is_written_sound ms (event disable_until_restart) h = cc
is_written_sound ms (event enable) h = cc
is_written_sound ms (event lock_after_current_break) h = cc

pub is_message_sound : (ms : ℕ) (m : SyncMessage) → is_message ms m ≡ true → m ≡ written ms
is_message_sound ms m h = ground (
  arith,
  text_eq_iff m.sender (encode_hex sample_id),
  is_written_sound ms m.payload,
  ==_iff m.version 6,
  ==_iff m.sequence 1,
)

pub zeros_are_bytes : All IsByte zeros
zeros_are_bytes = omega arith

pub sample_codec-IsFaithful : (ms : ℕ) → IsFaithful (sample_codec ms)
sample_codec-IsFaithful ms = record {
  reads_back = λ m mac s h. ground (arith, is_message_sound ms m);
  is_text = λ m mac s h. ground arith;
  mac_size = λ key payload mac h. ok-subst (λ bytes. length bytes ≡ mac_bytes) h refl;
  mac_is_bytes = λ key payload mac h. ok-subst (All IsByte) h zeros_are_bytes;
}

abbrev pub sample_id_IsFixed : IsFixed peer_id_bytes sample_id
sample_id_IsFixed = (refl, omega arith)

-- A disabling for a second.
abbrev pub sample_event : SyncEvent
sample_event = disable_for (secs 1)

abbrev pub sample_frame : Bytes
sample_frame = encode_hex zeros

pub sample_encoded :
    encode_authenticated (sample_codec 1000) (event_message sample_id 1 sample_event) sample_secret
    ≡ ok sample_frame
unfolding encode_authenticated event_message is_utf8 serialize
sample_encoded = refl

decode_authenticated-encode_authenticated_example :
    decode_authenticated (sample_codec 1000) sample_frame sample_secret ≡ (
      validate (whole (event_message sample_id 1 sample_event))
      >> ok (whole (event_message sample_id 1 sample_event)))
decode_authenticated-encode_authenticated_example =
    decode_authenticated-encode_authenticated (sample_codec 1000)
      (event_message sample_id 1 sample_event) sample_secret sample_frame
      (sample_codec-IsFaithful 1000) (unfold event_message in (sample_id_IsFixed, tt))
      sample_encoded

sample_decoded :
    decode_authenticated (sample_codec 1000) sample_frame sample_secret
    ≡ ok (event_message sample_id 1 sample_event)
unfolding decode_authenticated event_message encode_hex serialize
sample_decoded = refl

decode_authenticated-IsAuthentic_example :
    IsAuthentic
      (sample_codec 1000)
      sample_frame
      sample_secret
      (event_message sample_id 1 sample_event)
decode_authenticated-IsAuthentic_example =
    decode_authenticated-IsAuthentic (sample_codec 1000) sample_frame sample_secret
      (event_message sample_id 1 sample_event) (sample_codec-IsFaithful 1000) sample_decoded

short_encoded :
    encode_authenticated
      (sample_codec 0)
      (event_message sample_id 1 (disable_for 999999))
      sample_secret
    ≡ ok sample_frame
unfolding encode_authenticated event_message is_utf8 serialize
short_encoded = refl

decode_authenticated-sub_millisecond_example :
    decode_authenticated (sample_codec 0) sample_frame sample_secret
    ≡ err (zero_duration (text "durationMs"))
decode_authenticated-sub_millisecond_example =
    decode_authenticated-sub_millisecond (sample_codec 0) sample_id 1 999999 sample_secret
      sample_frame (sample_codec-IsFaithful 0) sample_id_IsFixed (omega arith) (omega arith)
      short_encoded
