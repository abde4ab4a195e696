-- ===== src/Transport/Session.antt =====
-- src/sync_transport/session.rs: `TransportSession`.
use rusteyes.Common.{ℕ, ◌+◌, if◌then◌else◌, ◌==◌}
use rusteyes.Common.Words.{word_max}
use rusteyes.Common.Utf8.{is_utf8}
use rusteyes.Common.Result.{Result, ok, err, ◌>>=◌, map_err}
use rusteyes.Protocol.{Bytes, PeerId, Fingerprint, SyncEvent, SyncMessage, SyncProtocolError}
use rusteyes.Protocol.Messages.{control, event_message}
use rusteyes.Protocol.Wire.{Codec}
use rusteyes.Protocol.Authentication.{encode_authenticated, decode_authenticated}
use rusteyes.Transport.{SyncTransportError, protocol, sequence_exhausted}

abbrev pub hello_sequence : ℕ
hello_sequence = 0

abbrev pub first_event_sequence : ℕ
first_event_sequence = 1

pub record TransportSession : Type 0 where
  pub self_id : PeerId
  pub shared_secret : Bytes
  pub compatibility : Fingerprint
  pub hello_payload : Bytes
  pub next_sequence : ℕ

-- `TransportFrameError`, without the position in `Utf8Error`.
pub data TransportFrameError : Type 0 where
  non_utf8 : TransportFrameError
  frame_protocol : SyncProtocolError → TransportFrameError

module _ (c : Codec) where
  -- `peer_hello_payload`.
  unfoldable pub peer_hello_payload : PeerId → Bytes → Fingerprint → Result SyncProtocolError Bytes
  unfolding control
  peer_hello_payload self_id shared_secret compatibility =
      encode_authenticated c (control self_id hello_sequence compatibility) shared_secret

  -- `TransportSession::new`.
  unfoldable pub new : PeerId → Bytes → Fingerprint → Result SyncProtocolError TransportSession
  unfolding peer_hello_payload
  new self_id shared_secret compatibility = do
    hello_payload ← peer_hello_payload self_id shared_secret compatibility
    ok (record {
      self_id = self_id;
      shared_secret = shared_secret;
      compatibility = compatibility;
      hello_payload = hello_payload;
      next_sequence = first_event_sequence;
    })

  -- `encode_event` behind its first test, on what `encode_authenticated` gives.
  unfoldable pub encoded :
      Result SyncProtocolError Bytes
      → TransportSession
      → TransportSession × Result SyncTransportError Bytes
  encoded (err e) s = (s, err (protocol e))
  encoded (ok payload) s = (record s { next_sequence = s.next_sequence + 1 }, ok payload)

  -- `encode_event`.
  unfoldable pub encode_event :
      SyncEvent → TransportSession → TransportSession × Result SyncTransportError Bytes
  unfolding event_message encoded
  encode_event event s =
      if s.next_sequence == word_max
      then (s, err sequence_exhausted)
      else encoded
          (encode_authenticated c (event_message s.self_id s.next_sequence event) s.shared_secret) s

  -- `decode_message`.
  unfoldable pub decode_message : Bytes → TransportSession → Result TransportFrameError SyncMessage
  decode_message bytes s =
      if is_utf8 bytes
      then map_err frame_protocol (decode_authenticated c bytes s.shared_secret)
      else err non_utf8
