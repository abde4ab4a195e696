-- ===== src/Runtime/Display.antt =====
-- src/runtime.rs: what the runtime shows through the user interface. Each of these operations
-- changes the notice, what is displayed and the log of user interface commands, and nothing else.
use rusteyes.Common.{
  ℕ, ◌-◌, ◌/◌, Bool, true, false, not, ◌&&◌, Option, none, some, List, [], ◌∷◌, ◌++◌, if◌then◌else◌,
  ltb, ◌==◌, min, any,
}
use rusteyes.Common.Text.{Text, text, text_eq}
use rusteyes.Common.Map.{BTreeMap}
use rusteyes.Common.Words.{millis, secs}
use rusteyes.Protocol.{PeerId}
use rusteyes.Protocol.Hex.{encode_hex}
use rusteyes.Scheduler.{BreakOrigin, scheduled, manual, BreakScheduler, UpcomingScheduledBreak}
use rusteyes.Scheduler.Due.{upcoming_scheduled_break, manual_break_availability}
use rusteyes.Runtime.{
  World, DaemonRuntime, DisableMode, enabled, timed, until_restart, StatusDisplay, upcoming_break,
  disabled_for, disabled_until_restart, UiCommand, show_pre_break_notification,
  clear_pre_break_notification, show_notification, update_status, update_manual_break_availability,
  NotifiedBreak, PreBreakNoticeState, PeerRejectionReason, incompatible_configuration,
}

abbrev pub default_pre_break_notice_lead : ℕ
default_pre_break_notice_lead = secs 30

abbrev pub final_pre_break_notice_lead : ℕ
final_pre_break_notice_lead = secs 5

-- `==` on statuses.
unfoldable pub status_eq : StatusDisplay → StatusDisplay → Bool
unfolding text_eq
status_eq (upcoming_break name after) (upcoming_break other later) =
    text_eq name other && (after == later)
status_eq (disabled_for remaining) (disabled_for other) = remaining == other
status_eq disabled_until_restart disabled_until_restart = true
status_eq (upcoming_break name after) (disabled_for other) = false
status_eq (upcoming_break name after) disabled_until_restart = false
status_eq (disabled_for remaining) (upcoming_break other later) = false
status_eq (disabled_for remaining) disabled_until_restart = false
status_eq disabled_until_restart (upcoming_break other later) = false
status_eq disabled_until_restart (disabled_for other) = false

abbrev bool_eq : Bool → Bool → Bool
bool_eq true true = true
bool_eq true false = false
bool_eq false true = false
bool_eq false false = true

-- `==` on the availability of manual breaks.
unfoldable pub availability_eq : BTreeMap Text Bool → BTreeMap Text Bool → Bool
unfolding text_eq
availability_eq [] [] = true
availability_eq [] (entry ∷ m) = false
availability_eq (entry ∷ m) [] = false
availability_eq ((name, is) ∷ m) ((other, was) ∷ m') =
    text_eq name other && bool_eq is was && availability_eq m m'

abbrev pub clear_commands : Option PreBreakNoticeState → List UiCommand → List UiCommand
clear_commands none sent = sent
clear_commands (some notice) sent = clear_pre_break_notification ∷ sent

-- `clear_pre_break_notice`.
unfoldable pub clear_pre_break_notice : DaemonRuntime → DaemonRuntime
clear_pre_break_notice r = record r {
  pre_break_notice = none;
  ui_commands = clear_commands r.pre_break_notice r.ui_commands;
}

-- `timed_disable_remaining`.
unfoldable pub timed_disable_remaining : World → ℕ → ℕ
timed_disable_remaining w ends_at_ms = millis (ends_at_ms - w.now)

status_of : Option UpcomingScheduledBreak → Option StatusDisplay
status_of none = none
status_of (some upcoming) =
    some (upcoming_break upcoming.scheduled_break.name upcoming.starts_after)

-- The status that `update_status_display` computes.
unfoldable pub status_now : World → DisableMode → BreakScheduler → Option StatusDisplay
unfolding upcoming_scheduled_break status_of timed_disable_remaining
status_now w enabled s = status_of (upcoming_scheduled_break w.draw s)
status_now w (timed ends_at_ms) s = some (disabled_for (timed_disable_remaining w ends_at_ms))
status_now w until_restart s = some disabled_until_restart

-- Whether a status is news.
unfoldable pub is_news : Option StatusDisplay → Option StatusDisplay → Bool
unfolding status_eq
is_news none displayed = false
is_news (some status) none = true
is_news (some status) (some displayed) = not (status_eq displayed status)

abbrev status_commands : Option StatusDisplay → Bool → List UiCommand → List UiCommand
status_commands (some status) true sent = update_status status ∷ sent
status_commands (some status) false sent = sent
status_commands none news sent = sent

-- `update_manual_break_availability`.
unfoldable pub update_availability : World → DaemonRuntime → DaemonRuntime
unfolding manual_break_availability availability_eq
update_availability w r =
    let availability = manual_break_availability w.draw r.scheduler in
    let same = availability_eq r.displayed_manual_break_availability availability in
    record r {
      displayed_manual_break_availability =
          if same then r.displayed_manual_break_availability else availability;
      ui_commands =
          if same
          then r.ui_commands
          else update_manual_break_availability availability ∷ r.ui_commands;
    }

-- `update_status_display`.
unfoldable pub update_status_display : World → DaemonRuntime → DaemonRuntime
unfolding status_now is_news update_availability
update_status_display w r =
    let status = status_now w r.disable_mode r.scheduler in
    let news = is_news status r.displayed_status in
    update_availability w (record r {
      displayed_status = if news then status else r.displayed_status;
      ui_commands = status_commands status news r.ui_commands;
    })

-- `pre_break_notice_lead`.
unfoldable pub pre_break_notice_lead : BreakScheduler → ℕ
pre_break_notice_lead s = min default_pre_break_notice_lead (s.schedule.after_active / 2)

-- `next_pre_break_notice_update`.
unfoldable pub next_pre_break_notice_update : ℕ → Option ℕ
next_pre_break_notice_update starts_after =
    if ltb final_pre_break_notice_lead starts_after then some final_pre_break_notice_lead else none

-- `==` on `NotifiedBreak`.
unfoldable pub same_notified : NotifiedBreak → NotifiedBreak → Bool
unfolding text_eq
same_notified a b = text_eq a.name b.name && (a.slot == b.slot)

shown_at : ℕ → Option ℕ → Option ℕ
shown_at starts_after none = none
shown_at starts_after (some next_update) =
    if ltb next_update starts_after then none else some (min starts_after next_update)

-- `next_pre_break_notice_starts_after`.
unfoldable pub next_pre_break_notice_starts_after :
    Option PreBreakNoticeState → NotifiedBreak → ℕ → Option ℕ
unfolding same_notified next_pre_break_notice_update shown_at
next_pre_break_notice_starts_after none notified starts_after = some starts_after
next_pre_break_notice_starts_after (some notice) notified starts_after =
    if same_notified notice.notified_break notified
    then shown_at starts_after (next_pre_break_notice_update notice.starts_after)
    else some starts_after

-- `NotifiedBreak::from_scheduled_break`.
unfoldable pub from_scheduled_break : Text → BreakOrigin → Option NotifiedBreak
from_scheduled_break name manual = none
from_scheduled_break name (scheduled slot) = some (record { name = name; slot = slot })

notice_at : NotifiedBreak → Option ℕ → Option PreBreakNoticeState
notice_at notified none = none
notice_at notified (some starts_after) =
    some (record { notified_break = notified; starts_after = starts_after })

notice_for : Option PreBreakNoticeState → ℕ → Option NotifiedBreak → Option PreBreakNoticeState
unfolding notice_at next_pre_break_notice_starts_after
notice_for notice starts_after none = none
notice_for notice starts_after (some notified) =
    notice_at notified (next_pre_break_notice_starts_after notice notified starts_after)

-- The notice that `notify_upcoming_break` shows, if it does.
unfoldable pub next_notice :
    Option UpcomingScheduledBreak → ℕ → Option PreBreakNoticeState → Option PreBreakNoticeState
unfolding notice_for from_scheduled_break
next_notice none lead notice = none
next_notice (some upcoming) lead notice =
    if ltb lead upcoming.starts_after
    then none
    else notice_for notice upcoming.starts_after
        (from_scheduled_break upcoming.scheduled_break.name upcoming.scheduled_break.origin)

abbrev kept_notice :
    Option PreBreakNoticeState → Option PreBreakNoticeState → Option PreBreakNoticeState
kept_notice none before = before
kept_notice (some notice) before = some notice

abbrev notice_commands : Option PreBreakNoticeState → List UiCommand → List UiCommand
notice_commands none sent = sent
notice_commands (some notice) sent =
    show_pre_break_notification notice.notified_break.name notice.starts_after ∷ sent

-- `notify_upcoming_break`.
unfoldable pub notify_upcoming_break : World → DaemonRuntime → DaemonRuntime
unfolding upcoming_scheduled_break pre_break_notice_lead next_notice
notify_upcoming_break w r =
    let notice =
      next_notice (upcoming_scheduled_break w.draw r.scheduler) (pre_break_notice_lead r.scheduler)
        r.pre_break_notice in
    record r {
      pre_break_notice = kept_notice notice r.pre_break_notice;
      ui_commands = notice_commands notice r.ui_commands;
    }

take : ℕ → Text → Text
take n [] = []
take n (c ∷ s) = if n == 0 then [] else c ∷ take (n - 1) s

-- `short_peer_id`.
unfoldable pub short_peer_id : PeerId → Text
unfolding encode_hex take
short_peer_id peer = take 8 (encode_hex peer) ++ text "..."

unfoldable pub rejection_notice : PeerId → PeerRejectionReason → UiCommand
unfolding short_peer_id
rejection_notice peer incompatible_configuration =
    show_notification (text "RustEyes sync peer rejected") (
      text "Peer "
      ++ short_peer_id peer
      ++ text " was rejected because its break settings do not match.")

-- `notify_peer_rejected`. The set of peers is a list, in the order of their first rejections.
unfoldable pub notify_peer_rejected : PeerId → PeerRejectionReason → DaemonRuntime → DaemonRuntime
unfolding text_eq rejection_notice any
notify_peer_rejected peer reason r =
    if any (text_eq peer) r.notified_rejected_peers then r else record r {
      notified_rejected_peers = r.notified_rejected_peers ++ peer ∷ [];
      ui_commands = rejection_notice peer reason ∷ r.ui_commands;
    }
