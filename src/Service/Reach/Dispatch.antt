-- ===== src/Service/Reach/Dispatch.antt =====
-- What holds of the control writes in every run.
use asl3_api.Prelude.{
  ℕ, ◌≤◌, String, true, false, Option, some, List, [], ◌∷◌, ◌≡◌, refl, arith, length, ltb, All,
}
use asl3_api.Models.{Operation, DispatchStatus}
use asl3_api.Ledger.{find}
use asl3_api.Ledger.History.{Writes, times_written, has_crossed, fits, find_ok}
use asl3_api.Ledger.Safety.{start_dispatch-Agrees}
use asl3_api.Service.{Platform, Settings, Worker}
use asl3_api.Service.Reach.{
  Step, admits, resumes, closing, closed, crashes, crashes_at_barrier, starts, Reach, here, next,
  init,
}
use asl3_api.Service.Safety.Invariant.{SlotOk, Inv, advance-Inv}
use asl3_api.Service.Safety.Entries.{admit-Inv, boot-Inv, start-Inv}

module _ (c : Settings) where
  Step-Inv : {t u : Platform} → Step c t u → Inv c t → Inv c u
  Step-Inv {t} (admits kind request credential key e) h =
      rw e (admit-Inv c kind request credential key t h)
  Step-Inv {t} (resumes id event e) h = rw e (advance-Inv c id event t h)
  Step-Inv (closing e) h = rw e (record { agrees = h.agrees; slot = h.slot })
  Step-Inv (closed none_left e) h = rw e (record { agrees = h.agrees; slot = rw none_left tt })
  Step-Inv {t} (crashes e) h = rw e (boot-Inv c t h)
  Step-Inv {t} (crashes_at_barrier id e) h =
      rw e (record {
        agrees = start_dispatch-Agrees c.env c.node t.writes id t.db h.agrees;
        slot = tt;
      })
  Step-Inv {t} (starts lock_free e) h = rw e (start-Inv c lock_free t h)

  init-Inv : Inv c init
  init-Inv = record {
    agrees = record { rows_ok = refl; present = λ id w. cc; once = λ id. omega arith };
    slot = tt;
  }

  pub Reach-Inv : {p : Platform} → Reach c init p → Inv c p
  Reach-Inv here = init-Inv
  Reach-Inv (next r s) = Step-Inv s (Reach-Inv r)

  -- In every run, with crashes and restarts, at most one control message is written for an operation.
  pub written_once : (id : String) {p : Platform} → Reach c init p → times_written id p.writes ≤ 1
  written_once id r = (Reach-Inv r).agrees.once id

  unwritten_of_fits :
      (n : ℕ) (s : DispatchStatus) → has_crossed s ≡ false → fits (ltb 0 n) s ≡ true → n ≡ 0
  unwritten_of_fits n s x f = ground arith

  -- In every run, an operation that the ledger shows as QUEUED or NOT_DISPATCHED was never written.
  pub not_dispatched_unwritten :
      (id : String) {p : Platform} {o : Operation}
      → Reach c init p
      → find c.node id p.db.rows ≡ some o
      → has_crossed o.dispatch_status ≡ false
      → times_written id p.writes ≡ 0
  not_dispatched_unwritten id {p} {o} r e x =
      unwritten_of_fits (times_written id p.writes) o.dispatch_status x
        (find_ok c.node p.writes id p.db.rows o (Reach-Inv r).agrees.rows_ok e).1

  one_task :
      (ts : List Worker) (busy : Option String) (writes : Writes)
      → SlotOk ts busy writes
      → (length ts ≤ 1) × All (λ w. busy ≡ some w.id) ts
  one_task [] busy writes s = (omega arith, tt)
  one_task (w ∷ []) busy writes s = (omega arith, (s.0, tt))
  one_task (_ ∷ _ ∷ _) busy writes s = absurd s

  -- In every run there is at most one control task, and it holds the control slot.
  pub tasks_hold_slot :
      {p : Platform}
      → Reach c init p
      → (length p.tasks ≤ 1) × All (λ w. p.busy_operation_id ≡ some w.id) p.tasks
  tasks_hold_slot {p} r = one_task p.tasks p.busy_operation_id p.writes (Reach-Inv r).slot
