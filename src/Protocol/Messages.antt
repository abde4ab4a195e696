-- ===== src/Protocol/Messages.antt =====
-- src/sync_protocol.rs: the checks of a message, `SyncMessage::validate`, `SyncEvent::validate` and
-- the helpers that they call, and the two constructors of messages.
use rusteyes.Common.{
  ℕ, ◌<◌, ◌≡◌, refl, arith, Bool, false, not, ◌||◌, none, some, [], ◌∷◌, ltb, ◌==◌,
}
use rusteyes.Common.Text.{Text, text, text_eq, trim, is_empty}
use rusteyes.Common.Map.{BTreeMap}
use rusteyes.Common.Result.{Result, ok, ◌>>◌, fail_if}
use rusteyes.Protocol.{
  PeerId, Fingerprint, protocol_version, SyncBreakOrigin, manual, scheduled, SyncActiveBreak,
  SyncEvent, active_time_elapsed, break_started, scheduler_state, scheduler_reset, disable_for,
  disable_until_restart, enable, lock_after_current_break, SyncFramePayload, peer_hello, event,
  SyncMessage, SyncProtocolError, unsupported_version, zero_duration, invalid_break_name,
  invalid_break_slot, invalid_satisfied_slot, invalid_hello_sequence, invalid_event_sequence,
}

abbrev pub Check : Type 0
Check = Result SyncProtocolError (Unit {0})

-- `name.trim() != name || name.is_empty()`.
unfoldable pub is_bad_name : Text → Bool
unfolding trim text_eq is_empty
is_bad_name name = not (text_eq (trim name) name) || is_empty name

-- `validate_last_satisfied_slots`.
unfoldable pub validate_last_satisfied_slots : ℕ → BTreeMap Text ℕ → Check
unfolding is_bad_name
validate_last_satisfied_slots slot [] = ok tt
validate_last_satisfied_slots slot ((name, last) ∷ rest) = do
  fail_if (is_bad_name name) (invalid_break_name name)
  fail_if (ltb slot last) (invalid_satisfied_slot name slot last)
  validate_last_satisfied_slots slot rest

abbrev is_slot_zero : SyncBreakOrigin → Bool
is_slot_zero manual = false
is_slot_zero (scheduled slot) = slot == 0

-- `SyncActiveBreak::validate`.
unfoldable pub validate_active_break : SyncActiveBreak → Check
unfolding is_bad_name
validate_active_break b = do
  fail_if (is_bad_name b.name) (invalid_break_name b.name)
  fail_if (is_slot_zero b.origin) (invalid_break_slot 0)

-- `SyncEvent::validate`.
unfoldable pub validate_event : SyncEvent → Check
unfolding is_bad_name validate_last_satisfied_slots validate_active_break
validate_event (active_time_elapsed elapsed) =
    fail_if (elapsed == 0) (zero_duration (text "elapsedMs"))
validate_event (break_started name message started_at_ms origin position) = do
  fail_if (is_bad_name name) (invalid_break_name name)
  fail_if (is_slot_zero origin) (invalid_break_slot 0)
  validate_last_satisfied_slots position.slot position.last_satisfied_slots
validate_event (scheduler_state slot active_elapsed last_satisfied_slots (some active_break)) = do
  validate_last_satisfied_slots slot last_satisfied_slots
  validate_active_break active_break
validate_event (scheduler_state slot active_elapsed last_satisfied_slots none) =
    validate_last_satisfied_slots slot last_satisfied_slots
validate_event scheduler_reset = ok tt
validate_event (disable_for duration) = fail_if (duration == 0) (zero_duration (text "durationMs"))
validate_event disable_until_restart = ok tt
validate_event enable = ok tt
validate_event lock_after_current_break = ok tt

validate_payload : ℕ → SyncFramePayload → Check
unfolding validate_event
validate_payload sequence (peer_hello compatibility) =
    fail_if (not (sequence == 0)) (invalid_hello_sequence sequence)
validate_payload sequence (event e) = do
  fail_if (sequence == 0) (invalid_event_sequence sequence)
  validate_event e

-- `SyncMessage::validate`.
unfoldable pub validate : SyncMessage → Check
unfolding validate_payload
validate message = do
  fail_if (not (message.version == protocol_version)) (unsupported_version message.version)
  validate_payload message.sequence message.payload

-- `SyncMessage::control`, of a hello frame.
unfoldable pub control : PeerId → ℕ → Fingerprint → SyncMessage
control sender sequence compatibility = record {
  version = protocol_version;
  sender = sender;
  sequence = sequence;
  payload = peer_hello compatibility;
}

-- `SyncMessage::event`.
unfoldable pub event_message : PeerId → ℕ → SyncEvent → SyncMessage
event_message sender sequence e = record {
  version = protocol_version;
  sender = sender;
  sequence = sequence;
  payload = event e;
}

-- An event's message is valid if the event is and the sequence number is not that of a hello.
pub validate-event_message :
    (sender : PeerId) (sequence : ℕ) (e : SyncEvent)
    → 0 < sequence
    → validate (event_message sender sequence e) ≡ validate_event e
unfolding validate event_message
validate-event_message sender sequence e h =
    let some_sequence : (sequence == 0) ≡ false = ground arith in rw some_sequence refl
