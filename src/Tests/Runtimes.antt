-- ===== src/Tests/Runtimes.antt =====
-- The runtime's theorems on the default schedule and at concrete values.
use rusteyes.Common.{◌≡◌, refl, true, not, some, List, [], ◌∷◌, All, arith}
use rusteyes.Common.Text.{text}
use rusteyes.Common.Words.{secs}
use rusteyes.Activity
use rusteyes.Protocol.{PeerId, SyncEvent}
use rusteyes.Protocol
use rusteyes.Scheduler.{scheduled}
use rusteyes.Scheduler.Operations.{is_pending}
use rusteyes.Scheduler.Rules
use rusteyes.Runtime.{DaemonRuntime, World, RuntimeInput, backend, ui, sync_transport, domain, new}
use rusteyes.Runtime.Handlers.{run, handle_input, handle_sync_event}
use rusteyes.Runtime.GoesOn.{handle_input-goes_on}
use rusteyes.Runtime.NoEcho.{IsQuiet, handle_sync_event-IsQuiet}
use rusteyes.Runtime.Idle.{IdleReset, default, advance_wall_clock, reset}
use rusteyes.Runtime.InStep.{is_showing, overlay}
use rusteyes.Runtime.Overlay.{Delivers, run-agrees, run-overlay}
use rusteyes.Runtime.Arbitration.{synced_break_replaces_current-opposite}
use rusteyes.Runtime.Sync.{synced_break_replaces_current}
use rusteyes.Runtime.Credit.{credited, triggers, credited-advance_wall_clock, triggers-reset}
use rusteyes.Tests.Samples.{sample_schedule}

abbrev first_peer : PeerId
first_peer = 1 ∷ 0 ∷ []

abbrev second_peer : PeerId
second_peer = 1 ∷ 9 ∷ []

abbrev sample_world : World
sample_world = record { now = 1000; draw = some 0; backend_alive = true }

unfoldable sample_runtime : DaemonRuntime
unfolding new
sample_runtime = new (some 0) sample_schedule (some first_peer)

-- A round of work, the short break, a request to lock, and a peer that enables.
abbrev sample_inputs : List (World × RuntimeInput)
sample_inputs =
    (sample_world, backend (Activity.active_time_elapsed (secs 600)))
    ∷ (sample_world, ui Activity.lock_after_current_break)
    ∷ (sample_world, sync_transport (domain second_peer Protocol.enable))
    ∷ []

sample-Delivers : All Delivers sample_inputs
sample-Delivers = ((refl, λ h. cc), ((refl, λ h. cc), ((refl, tt), tt)))

run-agrees_example :
    is_pending (run sample_world sample_inputs sample_runtime).scheduler.state
    ≡ is_showing (run sample_world sample_inputs sample_runtime).current_break
unfolding sample_runtime new Rules.new
run-agrees_example = run-agrees sample_world sample_inputs sample_runtime refl

run-overlay_example :
    overlay (run sample_world sample_inputs sample_runtime).backend_commands
    ≡ is_showing (run sample_world sample_inputs sample_runtime).current_break
unfolding sample_runtime new Rules.new
run-overlay_example =
    run-overlay sample_world sample_inputs sample_runtime sample-Delivers refl refl

-- Of two scheduled breaks of one slot, the one that started earlier wins at both peers.
synced_break_replaces_current-opposite_example :
    synced_break_replaces_current (some first_peer) second_peer (scheduled 2) (scheduled 2) 900 1000
    ≡ not (
        synced_break_replaces_current
          (some second_peer)
          first_peer
          (scheduled 2)
          (scheduled 2)
          1000
          900)
synced_break_replaces_current-opposite_example =
    synced_break_replaces_current-opposite first_peer second_peer (scheduled 2) (scheduled 2) 1000
      900 (λ h. cc)

abbrev sample_idle : IdleReset
sample_idle = record { timeout = some (secs 300); idle_elapsed = secs 12; reset_triggered = true }

credited-advance_wall_clock_example :
    (credited (secs 1 ∷ secs 1 ∷ []) default ≡ secs 2)
    × (credited (secs 1 ∷ secs 1 ∷ []) (advance_wall_clock (secs 1) default) ≡ secs 1)
credited-advance_wall_clock_example =
    credited-advance_wall_clock (secs 1) (secs 1 ∷ secs 1 ∷ []) default

triggers-reset_example : triggers (secs 200 ∷ secs 200 ∷ secs 400 ∷ []) (reset sample_idle) ≡ 1
triggers-reset_example =
    triggers-reset (secs 200 ∷ secs 200 ∷ secs 400 ∷ []) sample_idle (secs 300) refl (omega arith)
      (omega arith)

handle_input-goes_on_example :
    (handle_input sample_world (ui (Activity.disable Activity.until_restart)) sample_runtime).1
    ≡ true
handle_input-goes_on_example =
    handle_input-goes_on sample_world (ui (Activity.disable Activity.until_restart)) sample_runtime
      refl (λ h. cc)

-- A peer starts its short break.
abbrev sample_event : SyncEvent
sample_event =
    Protocol.break_started (text "short") (text "Rest") 900 (Protocol.scheduled 1) (record {
      slot = 1;
      active_elapsed = 0;
      last_satisfied_slots = (text "long", 0) ∷ (text "short", 1) ∷ [];
    })

handle_sync_event-IsQuiet_example :
    IsQuiet sample_runtime
      (handle_sync_event sample_world second_peer sample_event sample_runtime).0
handle_sync_event-IsQuiet_example =
    handle_sync_event-IsQuiet sample_world second_peer sample_event sample_runtime (λ elapsed h. cc)
