-- ===== src/Protocol/Wire.antt =====
-- src/sync_protocol.rs: what the code's own serde implementations make of a message, `Serialize` and
-- `Deserialize` of `PeerId` and of `SyncCompatibilityFingerprint`, and `duration_millis`. What the
-- derived implementations of the other types read and write is taken as a message whose ids are
-- hexadecimal text and whose durations are numbers of milliseconds.
use rusteyes.Common.{ℕ, ◌≡◌, true, Option, none, some, length, All}
use rusteyes.Common.Text.{Text, text}
use rusteyes.Common.Utf8.{is_utf8}
use rusteyes.Common.Words.{millis, try_as_millis}
use rusteyes.Common.Result.{Result, ok, err, ◌>>=◌}
use rusteyes.Protocol.{
  Bytes, peer_id_bytes, mac_bytes, SyncEvent, active_time_elapsed, break_started, scheduler_state,
  scheduler_reset, disable_for, disable_until_restart, enable, lock_after_current_break,
  SyncFramePayload, peer_hello, event, SyncMessage, SyncProtocolError,
}
use rusteyes.Protocol.Hex.{encode_hex, decode_hex_exact, IsByte}

-- The third-party crates: what `serde_json` writes and reads of a serialised message and of one with
-- its MAC, the texts of its errors, and HMAC-SHA256 of a payload under a key.
pub record Codec : Type 0 where
  pub to_vec : SyncMessage → Result Text Bytes
  pub to_string : SyncMessage → Text → Result Text Bytes
  pub from_str : Bytes → Result Text (SyncMessage × Text)
  pub out_of_range : Text
  pub custom : SyncProtocolError → Text
  pub hmac : (key payload : Bytes) → Result Text Bytes

-- What the code relies on: the envelope that is written reads back and is UTF-8, and a MAC is 32
-- bytes.
pub record IsFaithful (c : Codec) : Type 0 where
  pub reads_back :
      (m : SyncMessage) (mac : Text) (s : Bytes)
      → c.to_string m mac ≡ ok s
      → c.from_str s ≡ ok (m, mac)
  pub is_text :
      (m : SyncMessage) (mac : Text) (s : Bytes) → c.to_string m mac ≡ ok s → is_utf8 s ≡ true
  pub mac_size : (key payload mac : Bytes) → c.hmac key payload ≡ ok mac → length mac ≡ mac_bytes
  pub mac_is_bytes : (key payload mac : Bytes) → c.hmac key payload ≡ ok mac → All IsByte mac

-- `duration_millis::deserialize`, at each duration.
unfoldable pub deserialize_event : SyncEvent → SyncEvent
deserialize_event (active_time_elapsed ms) = active_time_elapsed (millis ms)
deserialize_event (break_started name message started_at_ms origin position) =
    break_started name message started_at_ms origin
      (record position { active_elapsed = millis position.active_elapsed })
deserialize_event (scheduler_state slot ms last_satisfied_slots active_break) =
    scheduler_state slot (millis ms) last_satisfied_slots active_break
deserialize_event scheduler_reset = scheduler_reset
deserialize_event (disable_for ms) = disable_for (millis ms)
deserialize_event disable_until_restart = disable_until_restart
deserialize_event enable = enable
deserialize_event lock_after_current_break = lock_after_current_break

module _ (c : Codec) where
  abbrev in_range : Option ℕ → Result Text ℕ
  in_range none = err c.out_of_range
  in_range (some n) = ok n

  -- `duration_millis::serialize`.
  unfoldable pub serialize_duration : ℕ → Result Text ℕ
  serialize_duration duration = in_range (try_as_millis duration)

  unfoldable pub serialize_event : SyncEvent → Result Text SyncEvent
  unfolding serialize_duration
  serialize_event (active_time_elapsed elapsed) = do
    ms ← serialize_duration elapsed
    ok (active_time_elapsed ms)
  serialize_event (break_started name message started_at_ms origin position) = do
    ms ← serialize_duration position.active_elapsed
    ok (break_started name message started_at_ms origin (record position { active_elapsed = ms }))
  serialize_event (scheduler_state slot active_elapsed last_satisfied_slots active_break) = do
    ms ← serialize_duration active_elapsed
    ok (scheduler_state slot ms last_satisfied_slots active_break)
  serialize_event scheduler_reset = ok scheduler_reset
  serialize_event (disable_for duration) = do ms ← serialize_duration duration; ok (disable_for ms)
  serialize_event disable_until_restart = ok disable_until_restart
  serialize_event enable = ok enable
  serialize_event lock_after_current_break = ok lock_after_current_break

  unfoldable pub serialize_payload : SyncFramePayload → Result Text SyncFramePayload
  unfolding serialize_event encode_hex
  serialize_payload (peer_hello compatibility) = ok (peer_hello (encode_hex compatibility))
  serialize_payload (event e) = do wire ← serialize_event e; ok (event wire)

  -- `Serialize` of a message.
  unfoldable pub serialize : SyncMessage → Result Text SyncMessage
  unfolding serialize_payload encode_hex
  serialize m = do
    payload ← serialize_payload m.payload
    ok (record m { sender = encode_hex m.sender; payload = payload })

  unfoldable pub custom_error {ℓ} : {A : Type ℓ} → Result SyncProtocolError A → Result Text A
  custom_error (ok a) = ok a
  custom_error (err e) = err (c.custom e)

  unfoldable pub deserialize_payload : SyncFramePayload → Result Text SyncFramePayload
  unfolding deserialize_event custom_error decode_hex_exact
  deserialize_payload (peer_hello compatibility) = do
    bytes ← custom_error (decode_hex_exact mac_bytes compatibility (text "compatibility"))
    ok (peer_hello bytes)
  deserialize_payload (event e) = ok (event (deserialize_event e))

  -- `Deserialize` of a message.
  unfoldable pub deserialize : SyncMessage → Result Text SyncMessage
  unfolding deserialize_payload custom_error decode_hex_exact
  deserialize m = do
    sender ← custom_error (decode_hex_exact peer_id_bytes m.sender (text "sender"))
    payload ← deserialize_payload m.payload
    ok (record m { sender = sender; payload = payload })
