-- ===== src/Protocol/Truncation.antt =====
-- src/sync_protocol.rs: a duration below a millisecond, which is valid until it is encoded.
use rusteyes.Common.{ℕ, ◌<◌, ◌≡◌, refl, ◌∙◌, ◌==◌, true, arith}
use rusteyes.Common.Text.{text}
use rusteyes.Common.Result.{ok, err}
use rusteyes.Protocol.{Bytes, PeerId, peer_id_bytes, disable_for, SyncMessage, zero_duration}
use rusteyes.Protocol.Messages.{event_message, validate, validate_event, validate-event_message}
use rusteyes.Protocol.Wire.{Codec, IsFaithful}
use rusteyes.Protocol.Authentication.{encode_authenticated, decode_authenticated}
use rusteyes.Protocol.RoundTrip.{IsFixed, whole_millis, decode_authenticated-encode_authenticated}

module _ (c : Codec) where
  -- A peer refuses the message of a disabling for less than a millisecond that its sender encoded
  -- without an error: the duration reads back as zero.
  pub decode_authenticated-sub_millisecond :
      (sender : PeerId) (sequence duration : ℕ) (secret s : Bytes)
      → IsFaithful c
      → IsFixed peer_id_bytes sender
      → 0 < sequence
      → duration < 1000000
      → encode_authenticated c (event_message sender sequence (disable_for duration)) secret ≡ ok s
      → decode_authenticated c s secret ≡ err (zero_duration (text "durationMs"))
  decode_authenticated-sub_millisecond sender sequence duration secret s faithful sized
        some_sequence short h =
      let m : SyncMessage = event_message sender sequence (disable_for duration) in
      let none_left : (whole_millis duration == 0) ≡ true = ground arith in
      let invalid : validate (event_message sender sequence (disable_for (whole_millis duration)))
          ≡ err (zero_duration (text "durationMs")) =
        validate-event_message sender sequence (disable_for (whole_millis duration)) some_sequence
        ∙ (unfold validate_event in rw none_left refl) in
      decode_authenticated-encode_authenticated c m secret s faithful
        (unfold event_message in (sized, tt)) h
      ∙ (unfold event_message in rw invalid refl)
