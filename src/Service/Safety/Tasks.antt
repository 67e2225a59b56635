-- ===== src/Service/Safety/Tasks.antt =====
-- The barrier, and the whole task: `resume` and `advance`.
use asl3_api.Prelude.{String, Bool, true, false, [], ◌∷◌, ◌++◌, ◌≡◌, refl, arith, sym, inl, inr, ap}
use asl3_api.Errors.{ok, Result-cases}
use asl3_api.Effects.{Effect}
use asl3_api.Models.{Operation}
use asl3_api.Ledger.{Db}
use asl3_api.Ledger.Methods as Methods
use asl3_api.Ledger.History.{is_written, Agrees}
use asl3_api.Ledger.Safety.{start_dispatch-Agrees}
use asl3_api.Ledger.Barrier.{barrier-Agrees}
use asl3_api.Service.{
  Stage, created, observing, dispatching, verifying, sleeping, has_started, Platform, Connection,
  absent, opened, closed, Settings, call_ledger, on_ledger, require_ledger,
}
use asl3_api.Service.Execution.{
  await, barrier, Event, run, snapshot, response, barrier_reached, elapsed, resume,
}
use asl3_api.Service.Status.{effect_status}
use asl3_api.Service.Safety.{Kept, Post, on_ledger-Kept, bind-Post}
use asl3_api.Service.Safety.Stretches.{
  idle-Post, begin-Post, after_snapshot-Post, after_response-Post, after_sample-Post,
}

pub require_ledger_same : (p : Platform) → (require_ledger p).1 ≡ p
unfolding require_ledger
require_ledger_same p = ground arith

-- A ledger call that returned changed the database alone.
pub record Called {A : Type 0} (m : Effect Db A) (p : Platform) (a : A) (q : Platform)
    : Type 0 where
  pub ran : m p.db ≡ (ok a, q.db)
  pub same_writes : q.writes ≡ p.writes
  pub same_tasks : q.tasks ≡ p.tasks
  pub same_busy : q.busy_operation_id ≡ p.busy_operation_id

call_ledger_ok :
    {A : Type 0} (connection : Connection) (m : Effect Db A) (p q : Platform) {a : A}
    → call_ledger connection m p ≡ (ok a, q)
    → Called m p a q
unfolding call_ledger
call_ledger_ok absent m p q e = absurd (ground arith)
call_ledger_ok closed m p q e = absurd (ground arith)
call_ledger_ok opened m p q e = record {
  ran = ap (λ x. (x.0, x.1.db)) e;
  same_writes = sym (ap (λ x. x.1.writes) e);
  same_tasks = sym (ap (λ x. x.1.tasks) e);
  same_busy = sym (ap (λ x. x.1.busy_operation_id) e);
}

pub on_ledger_ok :
    {A : Type 0} (m : Effect Db A) (p q : Platform) {a : A}
    → on_ledger m p ≡ (ok a, q)
    → Called m p a q
unfolding on_ledger
on_ledger_ok m p q e = call_ledger_ok p.ledger m p q e

module _ (c : Settings) (id : String) where
  module _ (p : Platform) (a : Agrees c.node p.writes p.db.rows) where
    -- The barrier adds one write of an operation that was never written, or adds none.
    barrier-Post :
        (o : Operation) (command : String) (started : Bool)
        → (started ≡ false → is_written id p.writes ≡ false)
        → Post c id started p (barrier c id o command p)
    unfolding barrier
    barrier-Post o command started u =
        bind-Post c id started p require_ledger _ (rw require_ledger_same nothing) u λ _ _.
          rw require_ledger_same (
            bind-Post c id started p (on_ledger start) _ k u
              λ op e. crossed op (on_ledger_ok start p (on_ledger start p).1 e))
      where
        start : Effect Db Operation
        start = Methods.start_dispatch c.env c.node id

        nothing : Kept c p p
        nothing = record { same_writes = refl; same_tasks = refl; same_busy = refl; agrees = a }

        k : Kept c p (on_ledger start p).1
        k = on_ledger-Kept c start p a (start_dispatch-Agrees c.env c.node p.writes id p.db a)

        crossed :
            (op : Operation)
            → Called start p op (on_ledger start p).1
            → Post c id started p (
              ok (await (dispatching o command true)),
              record (on_ledger start p).1 {
                writes = (on_ledger start p).1.writes ++ (id, command) ∷ [];
              },
            )
        crossed op done = record {
          same_tasks = done.same_tasks;
          same_busy = done.same_busy;
          agrees =
              rw done.same_writes (barrier-Agrees c.node id command p.writes c.env p.db a done.ran);
          unwritten = λ h. cc;
        }

    pub resume-Post :
        (stage : Stage) (event : Event)
        → (has_started stage ≡ false → is_written id p.writes ≡ false)
        → Post c id (has_started stage) p (resume c id stage event p)
    unfolding resume
    resume-Post created run u = begin-Post c id p a (u refl)
    resume-Post created _ u = idle-Post c id false p _ a u (λ h. h)
    resume-Post (observing o) (snapshot s time) u = after_snapshot-Post c id p a o s (u refl)
    resume-Post (observing o) _ u = idle-Post c id false p _ a u (λ h. h)
    resume-Post (dispatching o command started) barrier_reached u = barrier-Post o command started u
    resume-Post (dispatching o command started) (response m time) u =
        after_response-Post c id p a o started m time u
    resume-Post (dispatching o command started) _ u = idle-Post c id started p _ a u (λ h. h)
    resume-Post (verifying o deadline) (snapshot s time) u =
        elim (Result-cases (effect_status o s)) [
          | inl (effect, e) ↦ rw e (after_sample-Post c id p a o deadline time s effect)
          | inr (x, e) ↦ rw e (idle-Post c id true p _ a u (λ h. h))
        ]
    resume-Post (verifying o deadline) _ u = idle-Post c id true p _ a u (λ h. h)
    resume-Post (sleeping o deadline) elapsed u = idle-Post c id true p _ a u (λ h. h)
    resume-Post (sleeping o deadline) _ u = idle-Post c id true p _ a u (λ h. h)
