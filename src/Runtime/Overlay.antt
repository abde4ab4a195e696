-- ===== src/Runtime/Overlay.antt =====
-- src/runtime.rs: the current break, the scheduler and the backend's overlay over a run.
use rusteyes.Common.{◌≡◌, ◌≢◌, refl, sym, true, false, List, [], ◌∷◌, All, Bool-cases, inl, inr}
use rusteyes.Activity.{RuntimeEvent}
use rusteyes.Activity
use rusteyes.Scheduler.Operations.{is_pending}
use rusteyes.Runtime.{DaemonRuntime, RuntimeInput, backend, ui, sync_transport, World}
use rusteyes.Runtime.Display.{update_availability, update_status_display}
use rusteyes.Runtime.Handlers.{handle_input, run_on, run}
use rusteyes.Runtime.InStep.{IsInStep, is_showing, overlay}
use rusteyes.Runtime.Consistent.{handle_event-InStep, handle_sync_transport_event-InStep}

-- An input that does not report that the backend failed to show a break.
abbrev pub Starts : RuntimeInput → Type 0
Starts (backend event) = event ≢ Activity.break_start_failed
Starts (ui event) = event ≢ Activity.break_start_failed
Starts (sync_transport event) = Unit {0}

-- The backend takes commands, and shows the breaks that it is told to show.
abbrev pub Delivers : World × RuntimeInput → Type 0
Delivers (w, input) = (w.backend_alive ≡ true) × Starts input

handle_input-InStep :
    (w : World) (input : RuntimeInput) (r : DaemonRuntime)
    → Delivers (w, input)
    → IsInStep true r
    → IsInStep true (handle_input w input r).0
unfolding handle_input
handle_input-InStep w (backend event) r (alive, starts) h =
    handle_event-InStep true w (λ on. alive) event r (λ e. elim (starts e) [ ]) h
handle_input-InStep w (ui event) r (alive, starts) h =
    handle_event-InStep true w (λ on. alive) event r (λ e. elim (starts e) [ ]) h
handle_input-InStep w (sync_transport event) r (alive, starts) h =
    handle_sync_transport_event-InStep true w (λ on. alive) event r h

handle_input-agrees :
    (w : World) (input : RuntimeInput) (r : DaemonRuntime)
    → IsInStep false r
    → IsInStep false (handle_input w input r).0
unfolding handle_input
handle_input-agrees w (backend event) r h =
    handle_event-InStep false w (λ on. cc) event r (λ e. refl) h
handle_input-agrees w (ui event) r h = handle_event-InStep false w (λ on. cc) event r (λ e. refl) h
handle_input-agrees w (sync_transport event) r h =
    handle_sync_transport_event-InStep false w (λ on. cc) event r h

run_on-agrees :
    (inputs : List (World × RuntimeInput)) (r : DaemonRuntime)
    → IsInStep false r
    → IsInStep false (run_on inputs r)
unfolding run_on
run_on-agrees [] r h = h
run_on-agrees ((w, input) ∷ inputs) r h =
    let next = handle_input-agrees w input r h in
    elim (Bool-cases (handle_input w input r).1) [
      | inl going ↦ rw going (run_on-agrees inputs (handle_input w input r).0 next)
      | inr stopped ↦ rw stopped next
    ]

run_on-InStep :
    (inputs : List (World × RuntimeInput)) (r : DaemonRuntime)
    → All Delivers inputs
    → IsInStep true r
    → IsInStep true (run_on inputs r)
unfolding run_on
run_on-InStep [] r delivers h = h
run_on-InStep ((w, input) ∷ inputs) r (here, delivers) h =
    let next = handle_input-InStep w input r here h in
    elim (Bool-cases (handle_input w input r).1) [
      | inl going ↦ rw going (run_on-InStep inputs (handle_input w input r).0 delivers next)
      | inr stopped ↦ rw stopped next
    ]

-- After any run on any inputs, with the backend alive or gone, the runtime has a current break just
-- when the scheduler waits for a break to finish, on the condition that it was so at the start.
pub run-agrees :
    (w : World) (inputs : List (World × RuntimeInput)) (r : DaemonRuntime)
    → is_pending r.scheduler.state ≡ is_showing r.current_break
    → is_pending (run w inputs r).scheduler.state ≡ is_showing (run w inputs r).current_break
unfolding run update_status_display update_availability
run-agrees w inputs r h =
    (run_on-agrees inputs (update_status_display w r)
      (h, λ on. let clash : true ≡ false = sym on in cc)).0

-- While the backend takes commands and shows the breaks that it is told to show, the commands sent so
-- far leave the overlay up just when the runtime has a current break: no run strands an overlay that
-- blocks the input, and none drops one that is due. Both hold of the runtime at the start.
pub run-overlay :
    (w : World) (inputs : List (World × RuntimeInput)) (r : DaemonRuntime)
    → All Delivers inputs
    → is_pending r.scheduler.state ≡ is_showing r.current_break
    → overlay r.backend_commands ≡ is_showing r.current_break
    → overlay (run w inputs r).backend_commands ≡ is_showing (run w inputs r).current_break
unfolding run update_status_display update_availability
run-overlay w inputs r delivers same shows =
    (run_on-InStep inputs (update_status_display w r) delivers (same, λ on. shows)).1 refl
