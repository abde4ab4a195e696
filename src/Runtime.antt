-- ===== src/Runtime.antt =====
-- src/runtime.rs: the state of `DaemonRuntime`, with the commands of src/backend.rs and src/ui.rs and
-- the events of src/sync_transport.rs. What it sends is kept in one log for each channel, the newest
-- first.
pub mod Idle
pub mod Display
pub mod Breaks
pub mod Sync
pub mod Handlers
pub mod Pending
pub mod InStep
pub mod SyncInStep
pub mod GoesOn
pub mod NoEcho
pub mod Consistent
pub mod Overlay
pub mod Arbitration
pub mod Credit
use rusteyes.Common.{ℕ, Bool, Option, List, [], none}
use rusteyes.Common.Text.{Text}
use rusteyes.Common.Map.{BTreeMap}
use rusteyes.Activity.{RuntimeEvent}
use rusteyes.Protocol.{PeerId, SyncBreakOrigin, SyncEvent, SyncSchedulerPosition}
use rusteyes.Scheduler.{BreakOrigin, BreakSchedule, BreakScheduler, Draw, ScheduledBreak}
use rusteyes.Scheduler.Rules
use rusteyes.Scheduler.Due.{manual_break_availability}
use rusteyes.Runtime.Idle.{CombinedActivity, IdleReset, default}

-- `BackendCommand`.
pub data BackendCommand : Type 0 where
  start_break : ScheduledBreak → BackendCommand
  replace_active_break : (message : Text) (remaining : ℕ) (lock_after : Bool) → BackendCommand
  finish_break : (lock_after : Bool) → BackendCommand
  request_lock_after_current_break : BackendCommand
  clear_break : BackendCommand

-- `StatusDisplay`.
pub data StatusDisplay : Type 0 where
  upcoming_break : (break_name : Text) (starts_after : ℕ) → StatusDisplay
  disabled_for : (remaining : ℕ) → StatusDisplay
  disabled_until_restart : StatusDisplay

-- `UiCommand`, with `PreBreakNotification` and `UiNotification` in its constructors.
pub data UiCommand : Type 0 where
  show_pre_break_notification : (break_name : Text) (starts_after : ℕ) → UiCommand
  clear_pre_break_notification : UiCommand
  show_notification : (summary body : Text) → UiCommand
  update_status : StatusDisplay → UiCommand
  update_manual_break_availability : BTreeMap Text Bool → UiCommand

-- A call of `SyncEventBroadcaster`.
pub data SyncSend : Type 0 where
  broadcast : SyncEvent → SyncSend
  directed : PeerId → SyncEvent → SyncSend

pub data PeerRejectionReason : Type 0 where
  incompatible_configuration : PeerRejectionReason

pub data SyncTransportEvent : Type 0 where
  peer_authenticated peer_disconnected : PeerId → SyncTransportEvent
  peer_rejected : PeerId → PeerRejectionReason → SyncTransportEvent
  domain : PeerId → SyncEvent → SyncTransportEvent

pub data RuntimeInput : Type 0 where
  backend ui : RuntimeEvent → RuntimeInput
  sync_transport : SyncTransportEvent → RuntimeInput

pub data DisableMode : Type 0 where
  enabled : DisableMode
  timed : (ends_at_ms : ℕ) → DisableMode
  until_restart : DisableMode

pub data SyncPropagation : Type 0 where
  to_peers suppress : SyncPropagation

pub record SyncedBreakStart : Type 0 where
  pub name : Text
  pub message : Text
  pub started_at_ms : ℕ
  pub origin : SyncBreakOrigin
  pub position : SyncSchedulerPosition
  pub lock_after : Option Bool

pub record CurrentBreakState : Type 0 where
  pub name : Text
  pub message : Text
  pub origin : BreakOrigin
  pub lock_after : Bool
  pub started_at_ms : ℕ

pub record NotifiedBreak : Type 0 where
  pub name : Text
  pub slot : ℕ

pub record PreBreakNoticeState : Type 0 where
  pub notified_break : NotifiedBreak
  pub starts_after : ℕ

-- What one input meets: the wall clock's time in milliseconds, read once, the random draw, and
-- whether the backend still takes commands.
pub record World : Type 0 where
  pub now : ℕ
  pub draw : Draw
  pub backend_alive : Bool

pub record DaemonRuntime : Type 0 where
  pub scheduler : BreakScheduler
  pub disable_mode : DisableMode
  pub combined_activity : CombinedActivity
  pub active_time_idle_reset : IdleReset
  pub break_count_idle_reset : IdleReset
  pub current_break : Option CurrentBreakState
  pub pre_break_notice : Option PreBreakNoticeState
  pub notified_rejected_peers : List PeerId
  pub displayed_status : Option StatusDisplay
  pub displayed_manual_break_availability : BTreeMap Text Bool
  pub local_peer_id : Option PeerId
  pub backend_commands : List BackendCommand
  pub ui_commands : List UiCommand
  pub sync_sends : List SyncSend

-- `DaemonRuntime::new`.
unfoldable pub new : Draw → BreakSchedule → Option PeerId → DaemonRuntime
unfolding Idle.new Rules.new manual_break_availability
new draw schedule local_peer_id = record {
  scheduler = Rules.new schedule;
  disable_mode = enabled;
  combined_activity = default;
  active_time_idle_reset = Idle.new schedule.reset_after_idle;
  break_count_idle_reset = Idle.new schedule.reset_count_after_idle;
  current_break = none;
  pre_break_notice = none;
  notified_rejected_peers = [];
  displayed_status = none;
  displayed_manual_break_availability = manual_break_availability draw (Rules.new schedule);
  local_peer_id = local_peer_id;
  backend_commands = [];
  ui_commands = [];
  sync_sends = [];
}
