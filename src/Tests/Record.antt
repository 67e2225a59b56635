-- ===== src/Tests/Record.antt =====
-- A run with a crash after the admission: the restarted service is asked again under the same key.
use asl3_api.Prelude.{none, arith, List, join, true, false, some, [], ◌∷◌, All, format, ◌≡◌, refl}
use asl3_api.Errors.{problem, ok, err, protocol_error}
use asl3_api.Models.{link_node, dispatch_started, Operation, NodeState, is_node}
use asl3_api.Models.Command.{command_for}
use asl3_api.Models.Surface.{Surface, body_of, HasValidTarget}
use asl3_api.Policy.{enforce}
use asl3_api.Ledger.{find}
use asl3_api.Ledger.Canonical.{canonical}
use asl3_api.Ledger.Methods.{recovery}
use asl3_api.Ledger.{revise}
use asl3_api.Service.{Platform, verifying}
use asl3_api.Service.Admission.{admit}
use asl3_api.Service.Runtime.{boot, start, close}
use asl3_api.Service.Reach.{Observes, Reach, here, next, starts, crashes, init}
use asl3_api.Service.Reach.Recorded.{writes_recorded, writes_on_surface, operations_kept}
use asl3_api.Service.Reach.Retried.{retried_once}
use asl3_api.Service.Reach.Restarted.{start-Recovered}
use asl3_api.Ledger.Persistence.{SameRequest}
use asl3_api.Ledger.Recovery.{Recovered}
use asl3_api.Service.Reach.Closed.{close-tasks}
use asl3_api.Service.Reach.Verified.{Sample, rounds, WaitsAt, Ended, rounds-Ended}
use asl3_api.Tests.Service.{
  acknowledged_run, idle_state, machine, settings, link_request_2001, started, admitted, written,
  admitted_operation, Reach-admitted, Reach-written, admitted_found,
}

writes_recorded_example :
    All
      (λ w.
        (o : Operation) × (find "2000" w.0 written.db.rows ≡ some o)
        × (command_for "2000" o.kind o.request ≡ ok w.1)
        × ((before : NodeState) × Observes settings w.0 before Reach-written
            × (enforce settings.config o.kind before ≡ ok tt)))
      written.writes
writes_recorded_example = writes_recorded settings Reach-written

writes_on_surface_example :
    All
      (λ w.
        (a : Surface) × (is_node "2000" ≡ true)
        × HasValidTarget a
        × (w.1 ≡ format ("rpt cmd " ∷ "2000" ∷ " " ∷ body_of a ∷ [])))
      written.writes
writes_on_surface_example = writes_on_surface settings Reach-written

abbrev restarted : Platform
restarted = (start settings true (boot admitted.db admitted.writes)).1

Reach-restarted : Reach settings admitted restarted
Reach-restarted = next (next here (crashes refl)) (starts true refl)

operations_kept_example :
    (o : Operation) × (find "2000" "a1" restarted.db.rows ≡ some o)
    × (o.id ≡ admitted_operation.id)
    × (o.kind ≡ admitted_operation.kind)
    × (o.request ≡ admitted_operation.request)
operations_kept_example =
    operations_kept settings "a1" Reach-admitted Reach-restarted admitted_found

abbrev recovered_operation : Operation
recovered_operation = revise (recovery false) "2026-01-01T00:00:00+00:00" admitted_operation

abbrev asked_again : Platform
asked_again = (admit settings link_node link_request_2001 "remote" (some "k1") restarted).1

pub Reach-started : Reach settings init started
Reach-started = next here (starts true refl)

asked_first :
    admit settings link_node link_request_2001 "remote" (some "k1") started
    ≡ (ok admitted_operation, admitted)
unfolding machine
asked_first = refl

asked_after :
    admit settings link_node link_request_2001 "remote" (some "k1") restarted
    ≡ (ok recovered_operation, asked_again)
unfolding machine join
asked_after = refl

retried_once_example :
    (recovered_operation.id ≡ admitted_operation.id)
    × (canonical link_node link_request_2001 ≡ canonical link_node link_request_2001)
    × (asked_again.db.rows ≡ restarted.db.rows)
    × (asked_again.tasks ≡ restarted.tasks)
    × (asked_again.writes ≡ restarted.writes)
retried_once_example =
    retried_once settings "remote" "k1" link_node link_node link_request_2001 link_request_2001
      Reach-started asked_first Reach-restarted asked_after

-- The link does not come up, and the last look finds no snapshot.
abbrev looks : List Sample
looks =
    (ok idle_state, 3) ∷ (ok idle_state, 7) ∷ (err (protocol_error "No valid snapshot"), 11) ∷ []

acknowledged_waits : WaitsAt "a1" (verifying admitted_operation 11) acknowledged_run
unfolding machine
acknowledged_waits = (refl, refl)

rounds-Ended_example : Ended (rounds settings "a1" looks acknowledged_run)
rounds-Ended_example =
    rounds-Ended settings "a1" admitted_operation 4 11 3 (ok idle_state, 3)
      ((ok idle_state, 7) ∷ (err (protocol_error "No valid snapshot"), 11) ∷ []) acknowledged_run
      acknowledged_waits (omega arith, (omega arith, (omega arith, tt))) (omega arith)

-- The process dies after the control message was written, and another one starts.
abbrev crashed : Platform
crashed = boot written.db written.writes

abbrev interrupted : Operation
interrupted = record admitted_operation { dispatch_status = dispatch_started }

interrupted_found : find "2000" "a1" crashed.db.rows ≡ some interrupted
unfolding machine
interrupted_found = refl

start_returns : start settings true crashed ≡ (ok tt, (start settings true crashed).1)
unfolding machine
start_returns = refl

start-Recovered_example :
    (new : Operation) × (find "2000" "a1" (start settings true crashed).1.db.rows ≡ some new)
    × Recovered interrupted new
start-Recovered_example =
    start-Recovered settings true "a1" interrupted (next Reach-written (crashes refl)) start_returns
      interrupted_found

close-tasks_example :
    ((close settings written).tasks ≡ [])
    × ((close settings written).busy_operation_id ≡ none)
    × ((close settings written).writes ≡ written.writes)
    × ((o' : Operation) × (find "2000" "a1" (close settings written).db.rows ≡ some o')
        × SameRequest interrupted o')
    × (admit settings link_node link_request_2001 "remote" none (close settings written)
        ≡ (err (problem 503 "CONTROL_UNAVAILABLE"), close settings written))
close-tasks_example =
    close-tasks settings link_node link_request_2001 "remote" none "a1" interrupted Reach-written
      interrupted_found
