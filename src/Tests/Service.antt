-- ===== src/Tests/Service.antt =====
-- A run of the service: it starts, admits a link request, and takes it to the acknowledgment.
use asl3_api.Prelude.{
  ◌≤◌, true, false, Option, none, some, [], ◌∷◌, ◌≡◌, refl, length, All, all_chars, count, format,
  split, get, put,
}
use asl3_api.Models.{
  link_node, Request, Operation, NodeState, DispatchStatus, clear, StateStatus, acknowledged,
  is_node,
}
use asl3_api.Models.Command.{command_for, command_body, link_request, read_mode, validate_node}
use asl3_api.Config
use asl3_api.Config.{Value, dict, end}
use asl3_api.Policy.{enforce, enforce_traffic, setting, is_allow}
use asl3_api.Transport.{one, command_rejected, field_is}
use asl3_api.Ledger.{Env, Db, find}
use asl3_api.Ledger as Ledger
use asl3_api.Ledger.Methods as Methods
use asl3_api.Ledger.Canonical.{canonical}
use asl3_api.Ledger.History.{times_written}
use asl3_api.Service.{Platform, Settings, on_ledger, call_ledger, require_ledger, save, absorb}
use asl3_api.Service.Status.{effect_status, effect_of, find_link, link_effect, link_holds}
use asl3_api.Service.Admission.{admit, admit_fresh, reserve, reserved}
use asl3_api.Service.Execution as Execution
use asl3_api.Service.Execution.{
  advance, take_task, step_task, settle, resume, run, snapshot, barrier_reached, response,
}
use asl3_api.Service.Runtime.{start, abandon, open_ledger}
use asl3_api.Service.Reach.{Reach, here, next, starts, admits, resumes, init}
use asl3_api.Service.Reach.Dispatch.{written_once, not_dispatched_unwritten, tasks_hold_slot}

-- All that a run computes with.
unfoldable pub machine : Unit {0}
unfolding start abandon open_ledger on_ledger call_ledger require_ledger save absorb admit
    admit_fresh reserve reserved advance take_task step_task settle resume command_for command_body
    link_request read_mode validate_node is_node enforce enforce_traffic setting is_allow
    command_rejected field_is effect_status effect_of find_link link_effect link_holds Config.get
    canonical Methods.get Methods.find_idempotent Methods.recover_one Methods.admit Methods.update
    Methods.update_rows Methods.start_dispatch Methods.recover Methods.recover_all Methods.documents
    Methods.existing Methods.admit_new Ledger.transaction Ledger.select Ledger.find Ledger.write
    Ledger.find_key Ledger.match_request Ledger.insert Execution.begin Execution.begin_with
    Execution.after_snapshot Execution.after_status Execution.dispatch_allowed Execution.barrier
    Execution.after_response Execution.after_acceptance Execution.after_acknowledgment format split
    get put all_chars count
machine = tt

abbrev pub settings : Settings
settings = record {
  env = record { fails = λ _. false; now = λ _. "2026-01-01T00:00:00+00:00"; uuid = λ _. "a1" };
  node = "2000";
  config = dict end;
  effect_timeout = 8;
}

abbrev pub link_request_2001 : Request
link_request_2001 = ("node", "2001") ∷ ("mode", "transceive") ∷ []

-- The node is idle and has no links.
abbrev pub idle_state : NodeState
idle_state = record {
  node = "2000";
  observed_at = "2026-01-01T00:00:00+00:00";
  connection_epoch = some "e";
  state_status = StateStatus.complete;
  traffic_state = clear;
  is_complete = true;
  rx_keyed = some false;
  tx_keyed = some false;
  direct_links = some [];
  reasons = [];
}

abbrev pub started : Platform
started = (start settings true init).1

abbrev pub admitted : Platform
admitted = (admit settings link_node link_request_2001 "remote" (some "k1") started).1

abbrev observed : Platform
observed = advance settings "a1" (snapshot idle_state 0) (advance settings "a1" run admitted)

abbrev pub written : Platform
written = advance settings "a1" barrier_reached observed

abbrev pub acknowledged_run : Platform
acknowledged_run = advance settings "a1" (response (("response", one "Success") ∷ []) 3) written

pub Reach-admitted : Reach settings init admitted
Reach-admitted =
    next (next here (starts true refl))
      (admits link_node link_request_2001 "remote" (some "k1") refl)

pub Reach-written : Reach settings init written
Reach-written =
    next
      (next (next Reach-admitted (resumes "a1" run refl))
        (resumes "a1" (snapshot idle_state 0) refl))
      (resumes "a1" barrier_reached refl)

written_test : written.writes ≡ ("a1", "rpt cmd 2000 ilink 3 2001") ∷ []
unfolding machine
written_test = refl

abbrev status_of : Option Operation → Option DispatchStatus
status_of none = none
status_of (some o) = some o.dispatch_status

acknowledged_test : status_of (find "2000" "a1" acknowledged_run.db.rows) ≡ some acknowledged
unfolding machine
acknowledged_test = refl

written_once_example : times_written "a1" written.writes ≤ 1
written_once_example = written_once settings "a1" Reach-written

abbrev pub admitted_operation : Operation
admitted_operation =
    Methods.new_operation "2000" link_node link_request_2001 "remote" "a1"
      "2026-01-01T00:00:00+00:00"

pub admitted_found : find "2000" "a1" admitted.db.rows ≡ some admitted_operation
unfolding machine
admitted_found = refl

not_dispatched_unwritten_example : times_written "a1" admitted.writes ≡ 0
not_dispatched_unwritten_example =
    not_dispatched_unwritten settings "a1" Reach-admitted admitted_found refl

tasks_hold_slot_example :
    (length written.tasks ≤ 1) × All (λ w. written.busy_operation_id ≡ some w.id) written.tasks
tasks_hold_slot_example = tasks_hold_slot settings Reach-written
