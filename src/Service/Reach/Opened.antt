-- ===== src/Service/Reach/Opened.antt =====
-- The ledger of a running service, and what its capabilities say of control.
use asl3_api.Prelude.{
  String, Bool, true, false, not, Option, none, some, List, is_some, ◌≡◌, refl, sym, ap, subst, ◌∙◌,
  Bool-cases, inl, inr, arith,
}
use asl3_api.Errors.{Result, ok, err, Result-cases}
use asl3_api.Effects.{Effect, bind_keeps, proceed}
use asl3_api.Models.{Operation, Kind, Request}
use asl3_api.Models.Command.{command_for}
use asl3_api.Ledger.{Db, select}
use asl3_api.Ledger.Methods as Methods
use asl3_api.Service.{
  Stage, created, has_started, Worker, Connection, absent, opened, closed, Platform, Settings,
  call_ledger, on_ledger, require_ledger,
}
use asl3_api.Service.Admission.{set_busy, reserved, reserve, admit_fresh, admit}
use asl3_api.Service.Execution.{
  Next, finished, await, Event, cancel, resume, failure, cancellation, settle, step_task, take_task,
  step_found, advance,
}
use asl3_api.Service.Runtime.{abandon, open_ledger, opening, start}
use asl3_api.Service.Reach.{
  Step, admits, resumes, closing, closed, crashes, crashes_at_barrier, starts, Reach, here, next,
  init,
}
use asl3_api.Service.Safety.Tasks.{require_ledger_same}
use asl3_api.Service.Record.{Anything, hold, WritesOk, StageOk, Traced, save-Grown}
use asl3_api.Service.Record.Stretches.{resume-Traced}
use asl3_api.Service.Record.Runs.{TasksOk, take_task-All}
use asl3_api.Service.Record.Steps.{from_init}

call_ledger-hold :
    {A : Type 0} (connection : Connection) (m : Effect Db A) (p : Platform)
    → hold (call_ledger connection m p).1 ≡ hold p
unfolding call_ledger
call_ledger-hold absent m p = refl
call_ledger-hold opened m p = refl
call_ledger-hold Connection.closed m p = refl

on_ledger-hold : {A : Type 0} (m : Effect Db A) (p : Platform) → hold (on_ledger m p).1 ≡ hold p
unfolding on_ledger
on_ledger-hold m p = call_ledger-hold p.ledger m p

module _ (c : Settings) where
  settle-hold :
      (id : String) (p : Platform) (started : Bool) (x : Result Next × Platform)
      → Traced c Anything id p x
      → hold (settle c id started x) ≡ hold p
  unfolding settle
  settle-hold id p started (ok finished, q) k = k.same_hold
  settle-hold id p started (ok (await stage), q) k = k.same_hold
  settle-hold id p started (err e, q) k =
      (save-Grown c Anything id (failure c id started) q).same_hold ∙ k.same_hold

  step_task-hold :
      (id : String) (stage : Stage) (event : Event) (p : Platform)
      → WritesOk c Anything p
      → StageOk c Anything p.db.rows id stage
      → hold (step_task c id stage event p) ≡ hold p
  unfolding step_task
  step_task-hold id created cancel p h s = refl
  step_task-hold id stage cancel p h s =
      (save-Grown c Anything id (cancellation c id (has_started stage)) p).same_hold
  step_task-hold id stage event p h s =
      settle-hold id p (has_started stage) (resume c id stage event p)
        (resume-Traced c Anything id p h stage event s (λ _ _ _. tt))

  advance-hold :
      (id : String) (event : Event) (p : Platform)
      → WritesOk c Anything p
      → TasksOk c Anything p p.tasks
      → hold (advance c id event p) ≡ hold p
  unfolding advance
  advance-hold id event p h t = go (take_task id p.tasks) refl
    where
      go :
          (r : Option (Stage × List Worker))
          → take_task id p.tasks ≡ r
          → hold (step_found c id event p r) ≡ hold p
      go none e = refl
      go (some (stage, rest)) e =
          let (s, others) =
            take_task-All c Anything (λ w. StageOk c Anything p.db.rows w.id w.stage) id p.tasks e
              t in
          step_task-hold id stage event (record p { tasks = rest }) h s

  module _ (kind : Kind) (request : Request) (credential : String) (key : Option String) where
    reserved-hold : (r : Result (Operation × Bool)) (q : Platform) → hold (reserved r q).1 ≡ hold q
    unfolding reserved
    reserved-hold (ok (o, true)) q = refl
    reserved-hold (ok (o, false)) q = refl
    reserved-hold (err e) q = refl

    admit_fresh-hold :
        (existing : Option Operation) (q : Platform)
        → hold (admit_fresh c kind request credential key existing q).1 ≡ hold q
    unfolding admit_fresh reserve
    admit_fresh-hold (some o) q = refl
    admit_fresh-hold none q = elim (Bool-cases (is_some q.busy_operation_id)) [
      | inl busy ↦ rw busy refl
      | inr free ↦ rw free (
          reserved-hold
            (on_ledger (Methods.admit c.env c.node kind request credential key)
              (set_busy (some "RESERVING") q)).0
            (on_ledger (Methods.admit c.env c.node kind request credential key)
              (set_busy (some "RESERVING") q)).1
          ∙ on_ledger-hold (Methods.admit c.env c.node kind request credential key)
              (set_busy (some "RESERVING") q))
    ]

    admit-hold : (p : Platform) → hold (admit c kind request credential key p).1 ≡ hold p
    unfolding admit
    admit-hold p =
        bind_keeps (λ q. hold q ≡ hold p) require_ledger _ p (rw require_ledger_same refl)
          λ _ _. rw require_ledger_same (elim (Result-cases (command_for c.node kind request)) [
            | inr (x, e) ↦ rw e refl
            | inl (command, e) ↦ rw e (elim (Bool-cases (not p.healthy)) [
              | inl unhealthy ↦ rw unhealthy refl
              | inr healthy ↦ rw healthy (
                  bind_keeps (λ q. hold q ≡ hold p) (on_ledger look)
                    (admit_fresh c kind request credential key) p (on_ledger-hold look p)
                    λ existing _.
                      admit_fresh-hold existing (on_ledger look p).1 ∙ on_ledger-hold look p)
            ])
          ])
      where
        look : Effect Db (Option Operation)
        look = Methods.find_idempotent c.env c.node kind request credential key

  -- A service that holds the lock has its ledger.
  abbrev OpenIfHeld : Connection × Bool → Type 0
  OpenIfHeld h = h.1 ≡ true → h.0 ≡ opened

  abandon-OpenIfHeld :
      (r : Result (Unit {0})) (q : Platform)
      → OpenIfHeld (hold q)
      → OpenIfHeld (hold (abandon (r, q)).1)
  unfolding abandon
  abandon-OpenIfHeld (ok _) q h = h
  abandon-OpenIfHeld (err e) q h = λ held. absurd (ground arith)

  start-OpenIfHeld :
      (lock_free : Bool) (p : Platform)
      → OpenIfHeld (hold p)
      → OpenIfHeld (hold (start c lock_free p).1)
  unfolding start open_ledger
  start-OpenIfHeld false p h = h
  start-OpenIfHeld true p h = go (select c.env (λ rows. tt {0}) p.db).0
    where
      q : Platform
      q = record p { owner_held = true; db = (select c.env (λ rows. tt {0}) p.db).1 }

      go :
          (r : Result (Unit {0}))
          → OpenIfHeld (
              hold
                (abandon (
                  proceed
                    (opening r q).0
                    (λ _. on_ledger (Methods.recover c.env c.node))
                    (opening r q).1)).1)
      go (err e) = unfold abandon in λ held. absurd (ground arith)
      go (ok u) =
          let m = Methods.recover c.env c.node in
          let q' : Platform = record q { ledger = opened } in
          abandon-OpenIfHeld (on_ledger m q').0 (on_ledger m q').1
            λ held. ap (λ x. x.0) (on_ledger-hold m q')

  Step-OpenIfHeld :
      {t u : Platform} → Step c t u → Reach c init t → OpenIfHeld (hold t) → OpenIfHeld (hold u)
  Step-OpenIfHeld {t} (admits kind request credential key e) r h =
      rw e (subst OpenIfHeld (sym (admit-hold kind request credential key t)) h)
  Step-OpenIfHeld {t} (resumes id event e) r h =
      let k = from_init c r in
      rw e (subst OpenIfHeld (sym (advance-hold id event t k.writes k.tasks)) h)
  Step-OpenIfHeld (closing e) r h = rw e h
  Step-OpenIfHeld (closed none_left e) r h = rw e (λ held. absurd (ground arith))
  Step-OpenIfHeld (crashes e) r h = rw e (λ held. absurd (ground arith))
  Step-OpenIfHeld (crashes_at_barrier id e) r h = rw e (λ held. absurd (ground arith))
  Step-OpenIfHeld {t} (starts lock_free e) r h = rw e (start-OpenIfHeld lock_free t h)

  pub Reach-OpenIfHeld : {p : Platform} → Reach c init p → p.owner_held ≡ true → p.ledger ≡ opened
  Reach-OpenIfHeld here = λ held. absurd (ground arith)
  Reach-OpenIfHeld (next r s) = Step-OpenIfHeld s r (Reach-OpenIfHeld r)
