-- ===== src/Service/Reach/Closed.antt =====
-- What `close` leaves.
use asl3_api.Prelude.{
  String, true, false, Option, none, some, List, [], ◌∷◌, eq_refl, ◌≡◌, refl, ◌∙◌,
}
use asl3_api.Errors.{problem, err}
use asl3_api.Models.{Operation, Kind, Request}
use asl3_api.Service.{
  Stage, created, observing, dispatching, verifying, sleeping, has_started, Worker, Platform,
  Settings, require_ledger,
}
use asl3_api.Service.Admission.{admit}
use asl3_api.Service.Execution.{cancel, cancellation, step_task, take_task, step_found, advance}
use asl3_api.Service.Runtime.{close_begin, cancel_tasks, close}
use asl3_api.Service.Reach.{Reach, init}
use asl3_api.Service.Reach.Dispatch.{Reach-Inv}
use asl3_api.Service.Safety.Invariant.{SlotOk}
use asl3_api.Service.Record.{Anything, save-Grown}
use asl3_api.Service.Record.Runs.{OnRecord, advance-OnRecord}
use asl3_api.Service.Record.Steps.{now-OnRecord, from_init}
use asl3_api.Ledger.{find}
use asl3_api.Ledger.Persistence.{SameRequest, Extends, Extends-trans}

module _ (c : Settings) where
  cancelled_tasks :
      (id : String) (stage : Stage) (p : Platform)
      → p.tasks ≡ []
      → (step_task c id stage cancel p).tasks ≡ []
  unfolding step_task
  cancelled_tasks id created p t = t
  cancelled_tasks id (observing o) p t =
      (save-Grown c Anything id (cancellation c id false) p).same_tasks ∙ t
  cancelled_tasks id (dispatching o command started) p t =
      (save-Grown c Anything id (cancellation c id started) p).same_tasks ∙ t
  cancelled_tasks id (verifying o deadline) p t =
      (save-Grown c Anything id (cancellation c id true) p).same_tasks ∙ t
  cancelled_tasks id (sleeping o deadline) p t =
      (save-Grown c Anything id (cancellation c id true) p).same_tasks ∙ t

  advance-cancel :
      (w : Worker) (p : Platform) → p.tasks ≡ w ∷ [] → (advance c w.id cancel p).tasks ≡ []
  unfolding advance take_task
  advance-cancel w p e =
      rw (e, eq_refl w.id) (cancelled_tasks w.id w.stage (record p { tasks = [] }) refl)

  cancel_tasks-all :
      (ts : List Worker) (p : Platform)
      → p.tasks ≡ ts
      → SlotOk ts p.busy_operation_id p.writes
      → (cancel_tasks c ts p).tasks ≡ []
  unfolding cancel_tasks
  cancel_tasks-all [] p e s = e
  cancel_tasks-all (w ∷ []) p e s = advance-cancel w p e
  cancel_tasks-all (_ ∷ _ ∷ _) p e s = absurd s

  cancelled_writes :
      (id : String) (stage : Stage) (p : Platform)
      → (step_task c id stage cancel p).writes ≡ p.writes
  unfolding step_task
  cancelled_writes id created p = refl
  cancelled_writes id stage p =
      (save-Grown c Anything id (cancellation c id (has_started stage)) p).same_writes

  advance-cancel-writes : (id : String) (p : Platform) → (advance c id cancel p).writes ≡ p.writes
  unfolding advance
  advance-cancel-writes id p = go (take_task id p.tasks)
    where
      go :
          (found : Option (Stage × List Worker))
          → (step_found c id cancel p found).writes ≡ p.writes
      go none = refl
      go (some (stage, rest)) = cancelled_writes id stage (record p { tasks = rest })

  cancel_tasks-writes : (ts : List Worker) (p : Platform) → (cancel_tasks c ts p).writes ≡ p.writes
  unfolding cancel_tasks
  cancel_tasks-writes [] p = refl
  cancel_tasks-writes (w ∷ ts) p =
      cancel_tasks-writes ts (advance c w.id cancel p) ∙ advance-cancel-writes w.id p

  cancel_tasks-Extends :
      (ts : List Worker) (p : Platform)
      → OnRecord c Anything p p
      → Extends c.node p.db.rows (cancel_tasks c ts p).db.rows
  unfolding cancel_tasks
  cancel_tasks-Extends [] p h = h.extends
  cancel_tasks-Extends (w ∷ ts) p h =
      let k = advance-OnRecord c Anything w.id cancel p h.writes h.tasks (λ _ _ _. tt) in
      Extends-trans c.node p.db.rows (advance c w.id cancel p).db.rows _ k.extends
        (cancel_tasks-Extends ts (advance c w.id cancel p) (now-OnRecord c Anything p _ k))

  -- In every run, `close` ends every task and frees the control slot, writes no control message, and
  -- keeps each operation of the ledger with its kind and its request; an admission after it is
  -- refused with the problem 503 and changes nothing.
  pub close-tasks :
      (kind : Kind) (request : Request) (credential : String) (key : Option String) {p : Platform}
      (id : String) (o : Operation)
      → Reach c init p
      → find c.node id p.db.rows ≡ some o
      → ((close c p).tasks ≡ [])
        × ((close c p).busy_operation_id ≡ none)
        × ((close c p).writes ≡ p.writes)
        × ((o' : Operation) × (find c.node id (close c p).db.rows ≡ some o') × SameRequest o o')
        × (admit c kind request credential key (close c p)
            ≡ (err (problem 503 "CONTROL_UNAVAILABLE"), close c p))
  unfolding close admit require_ledger
  close-tasks kind request credential key {p} id o r found =
      let q = close_begin p in
      let h = from_init c r in
      let on : OnRecord c Anything q q = record {
        extends = h.extends;
        writes = h.writes;
        tasks = h.tasks;
      } in
      (
        cancel_tasks-all p.tasks q refl (Reach-Inv c r).slot,
        refl,
        cancel_tasks-writes p.tasks q,
        (cancel_tasks-Extends p.tasks q on).kept id o found,
        refl,
      )
