-- ===== src/Protocol.antt =====
-- src/sync_protocol.rs: the messages that peers exchange. A peer id and a MAC are lists of bytes, in
-- the order in which Rust compares them; `u64` and `usize` values are natural numbers.
pub mod Hex
pub mod Messages
pub mod Wire
pub mod Mac
pub mod Authentication
pub mod RoundTrip
pub mod Authentic
pub mod Truncation
use rusteyes.Common.{ℕ, Bool, Option, List}
use rusteyes.Common.Text.{Text}
use rusteyes.Common.Map.{BTreeMap}

abbrev pub Bytes : Type 0
Bytes = List ℕ

abbrev pub protocol_version : ℕ
protocol_version = 6

abbrev pub peer_id_bytes : ℕ
peer_id_bytes = 16

abbrev pub mac_bytes : ℕ
mac_bytes = 32

abbrev pub PeerId : Type 0
PeerId = Bytes

abbrev pub Fingerprint : Type 0
Fingerprint = Bytes

pub data SyncBreakOrigin : Type 0 where
  manual : SyncBreakOrigin
  scheduled : (slot : ℕ) → SyncBreakOrigin

pub record SyncSchedulerPosition : Type 0 where
  pub slot : ℕ
  pub active_elapsed : ℕ
  pub last_satisfied_slots : BTreeMap Text ℕ

pub record SyncActiveBreak : Type 0 where
  pub name : Text
  pub message : Text
  pub started_at_ms : ℕ
  pub origin : SyncBreakOrigin
  pub lock_after : Bool

pub data SyncEvent : Type 0 where
  active_time_elapsed : (elapsed : ℕ) → SyncEvent
  break_started :
      (name message : Text) (started_at_ms : ℕ) (origin : SyncBreakOrigin)
      (position : SyncSchedulerPosition)
      → SyncEvent
  scheduler_state :
      (slot active_elapsed : ℕ) (last_satisfied_slots : BTreeMap Text ℕ)
      (active_break : Option SyncActiveBreak)
      → SyncEvent
  scheduler_reset : SyncEvent
  disable_for : (duration : ℕ) → SyncEvent
  disable_until_restart : SyncEvent
  enable : SyncEvent
  lock_after_current_break : SyncEvent

pub data SyncFramePayload : Type 0 where
  peer_hello : (compatibility : Fingerprint) → SyncFramePayload
  event : SyncEvent → SyncFramePayload

pub record SyncMessage : Type 0 where
  pub version : ℕ
  pub sender : PeerId
  pub sequence : ℕ
  pub payload : SyncFramePayload

pub data SyncProtocolError : Type 0 where
  json random mac_key : (message : Text) → SyncProtocolError
  invalid_hex_length : (field : Text) (expected actual : ℕ) → SyncProtocolError
  invalid_hex : (field : Text) → SyncProtocolError
  unsupported_version : (version : ℕ) → SyncProtocolError
  zero_duration : (field : Text) → SyncProtocolError
  invalid_break_name : (name : Text) → SyncProtocolError
  invalid_break_slot : (slot : ℕ) → SyncProtocolError
  invalid_satisfied_slot : (name : Text) (slot last_satisfied_slot : ℕ) → SyncProtocolError
  invalid_hello_sequence invalid_event_sequence : (sequence : ℕ) → SyncProtocolError
  duration_out_of_range : (field : Text) → SyncProtocolError
  authentication_failed : SyncProtocolError
