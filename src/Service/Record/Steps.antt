-- ===== src/Service/Record/Steps.antt =====
-- Each step of a run leaves all on record, and so does a run.
use asl3_api.Prelude.{
  String, Bool, true, false, not, Option, none, some, [], is_some, refl, Bool-cases, inl, inr,
}
use asl3_api.Errors.{Result, ok, err, Result-cases}
use asl3_api.Effects.{Effect, bind_keeps}
use asl3_api.Models.{NodeState, Operation, Kind, Request}
use asl3_api.Models.Command.{command_for}
use asl3_api.Ledger.{Db, select}
use asl3_api.Ledger.Methods as Methods
use asl3_api.Ledger.Persistence.{Extends, Extends-refl}
use asl3_api.Ledger.Persistence.Methods.{
  open-Extends, find_idempotent-Extends, admit-Extends, recover-Extends, start_dispatch-Extends,
}
use asl3_api.Service.{Platform, Settings, on_ledger, require_ledger}
use asl3_api.Service.Admission.{set_busy, reserved, reserve, admit_fresh, admit}
use asl3_api.Service.Runtime.{boot, abandon, open_ledger, opening, start}
use asl3_api.Service.Reach.{
  Step, admits, resumes, closing, closed, crashes, crashes_at_barrier, starts, Delivers, Observes,
  Reach, here, next, init,
}
use asl3_api.Service.Safety.Tasks.{require_ledger_same}
use asl3_api.Service.Record.{Anything, WritesOk, on_ledger-Grown, All-Recorded}
use asl3_api.Service.Record.Runs.{OnRecord, OnRecord-trans, OnRecord-of_Grown, advance-OnRecord}

module _ (c : Settings) (Seen : String → NodeState → Type 0) where
  -- A method of the ledger that extends the table.
  ledger-OnRecord :
      {A : Type 0} (m : Effect Db A) (p q : Platform)
      → OnRecord c Seen p q
      → Extends c.node q.db.rows (m q.db).1.rows
      → OnRecord c Seen p (on_ledger m q).1
  ledger-OnRecord m p q h x =
      OnRecord-trans c Seen p q (on_ledger m q).1 h (
        OnRecord-of_Grown c Seen q (on_ledger m q).1 h.writes h.tasks
          (on_ledger-Grown c Seen m q x))

  module _ (kind : Kind) (request : Request) (credential : String) (key : Option String) where
    reserved-OnRecord :
        (p q : Platform) (r : Result (Operation × Bool))
        → OnRecord c Seen p q
        → OnRecord c Seen p (reserved r q).1
    unfolding reserved
    reserved-OnRecord p q (ok (o, true)) h = record {
      extends = h.extends;
      writes = h.writes;
      tasks = (tt, h.tasks);
    }
    reserved-OnRecord p q (ok (o, false)) h = record {
      extends = h.extends;
      writes = h.writes;
      tasks = h.tasks;
    }
    reserved-OnRecord p q (err e) h = record {
      extends = h.extends;
      writes = h.writes;
      tasks = h.tasks;
    }

    reserve-OnRecord :
        (p q : Platform)
        → OnRecord c Seen p q
        → OnRecord c Seen p (reserve c kind request credential key q).1
    unfolding reserve
    reserve-OnRecord p q h = reserved-OnRecord p (on_ledger m q0).1 (on_ledger m q0).0 (
        ledger-OnRecord m p q0 (record { extends = h.extends; writes = h.writes; tasks = h.tasks })
          (admit-Extends c.node c.env kind request credential key q.db))
      where
        q0 : Platform
        q0 = set_busy (some "RESERVING") q

        m : Effect Db (Operation × Bool)
        m = Methods.admit c.env c.node kind request credential key

    admit_fresh-OnRecord :
        (p q : Platform) (existing : Option Operation)
        → OnRecord c Seen p q
        → OnRecord c Seen p (admit_fresh c kind request credential key existing q).1
    unfolding admit_fresh
    admit_fresh-OnRecord p q (some o) h = h
    admit_fresh-OnRecord p q none h = elim (Bool-cases (is_some q.busy_operation_id)) [
      | inl busy ↦ rw busy h
      | inr free ↦ rw free (reserve-OnRecord p q h)
    ]

    pub admit-OnRecord :
        (p : Platform)
        → OnRecord c Seen p p
        → OnRecord c Seen p (admit c kind request credential key p).1
    unfolding admit
    admit-OnRecord p h =
        bind_keeps (OnRecord c Seen p) require_ledger _ p (rw require_ledger_same h) λ _ _.
          rw require_ledger_same (elim (Result-cases (command_for c.node kind request)) [
            | inr (x, e) ↦ rw e h
            | inl (command, e) ↦ rw e (elim (Bool-cases (not p.healthy)) [
              | inl unhealthy ↦ rw unhealthy h
              | inr healthy ↦ rw healthy (
                  bind_keeps (OnRecord c Seen p) (on_ledger look)
                    (admit_fresh c kind request credential key) p looked
                    λ existing _. admit_fresh-OnRecord p (on_ledger look p).1 existing looked)
            ])
          ])
      where
        look : Effect Db (Option Operation)
        look = Methods.find_idempotent c.env c.node kind request credential key

        looked : OnRecord c Seen p (on_ledger look p).1
        looked =
            ledger-OnRecord look p p h
              (find_idempotent-Extends c.node c.env kind request credential key p.db)

  opening-OnRecord :
      (p q : Platform) (r : Result (Unit {0}))
      → OnRecord c Seen p q
      → OnRecord c Seen p (opening r q).1
  opening-OnRecord p q (ok _) h = record { extends = h.extends; writes = h.writes; tasks = h.tasks }
  opening-OnRecord p q (err e) h = h

  abandon-OnRecord :
      (p : Platform) (x : Result (Unit {0}) × Platform)
      → OnRecord c Seen p x.1
      → OnRecord c Seen p (abandon x).1
  unfolding abandon
  abandon-OnRecord p (ok _, q) h = h
  abandon-OnRecord p (err e, q) h = record {
    extends = h.extends;
    writes = h.writes;
    tasks = h.tasks;
  }

  start-OnRecord :
      (lock_free : Bool) (p : Platform)
      → OnRecord c Seen p p
      → OnRecord c Seen p (start c lock_free p).1
  unfolding start
  start-OnRecord false p h = h
  start-OnRecord true p h = abandon-OnRecord p _ (
      bind_keeps (OnRecord c Seen p) (open_ledger c) (λ _. on_ledger (Methods.recover c.env c.node))
        _ opened_first
        λ _ _.
          ledger-OnRecord (Methods.recover c.env c.node) p _ opened_first
            (recover-Extends c.node c.env _))
    where
      opened_first : OnRecord c Seen p (open_ledger c (record p { owner_held = true })).1
      opened_first =
          unfold open_ledger in
          opening-OnRecord p _ (select c.env (λ rows. tt {0}) p.db).0
            (record { extends = read.extends; writes = read.writes; tasks = read.tasks })
        where
          owning : Platform
          owning = record p { owner_held = true }

          read :
              OnRecord c Seen owning (record owning { db = (select c.env (λ rows. tt {0}) p.db).1 })
          read = OnRecord-of_Grown c Seen owning _ h.writes h.tasks (record {
            extends = open-Extends c.node c.env p.db;
            same_writes = refl;
            same_tasks = refl;
            same_busy = refl;
            same_hold = refl;
          })

  -- A new process over a table that extends the last one's.
  boot-OnRecord :
      (p : Platform) (db : Db)
      → WritesOk c Seen p
      → Extends c.node p.db.rows db.rows
      → OnRecord c Seen p (boot db p.writes)
  boot-OnRecord p db h x = record {
    extends = x;
    writes = All-Recorded c Seen p.db.rows db.rows x p.writes h;
    tasks = tt;
  }

  Step-OnRecord :
      {t u : Platform} (s : Step c t u)
      → ((id : String) (before : NodeState) → Delivers c id before s → Seen id before)
      → OnRecord c Seen t t
      → OnRecord c Seen t u
  Step-OnRecord {t} (admits kind request credential key e) g h =
      rw e (admit-OnRecord kind request credential key t h)
  Step-OnRecord {t} (resumes id event e) g h = rw e (
      advance-OnRecord c Seen id event t h.writes h.tasks
        λ before time same. g id before (refl, (time, same)))
  Step-OnRecord (closing e) g h =
      rw e (record { extends = h.extends; writes = h.writes; tasks = h.tasks })
  Step-OnRecord (closed none_left e) g h =
      rw e (record { extends = h.extends; writes = h.writes; tasks = h.tasks })
  Step-OnRecord {t} (crashes e) g h = rw e (boot-OnRecord t t.db h.writes h.extends)
  Step-OnRecord {t} (crashes_at_barrier id e) g h =
      rw e (boot-OnRecord t _ h.writes (start_dispatch-Extends c.node c.env id t.db))
  Step-OnRecord {t} (starts lock_free e) g h = rw e (start-OnRecord lock_free t h)

  pub now-OnRecord : (p q : Platform) → OnRecord c Seen p q → OnRecord c Seen q q
  now-OnRecord p q h = record {
    extends = Extends-refl c.node q.db.rows;
    writes = h.writes;
    tasks = h.tasks;
  }

  pub Reach-OnRecord :
      {p q : Platform} (r : Reach c p q)
      → ((id : String) (before : NodeState) → Observes c id before r → Seen id before)
      → OnRecord c Seen p p
      → OnRecord c Seen p q
  Reach-OnRecord here g h = h
  Reach-OnRecord {p} {q} (next {t} r s) g h =
      let before = Reach-OnRecord r (λ id before o. g id before (inl o)) h in
      OnRecord-trans c Seen p t q before
        (Step-OnRecord s (λ id before d. g id before (inr d)) (now-OnRecord p t before))

  pub init-OnRecord : OnRecord c Seen init init
  init-OnRecord = record { extends = Extends-refl c.node []; writes = tt; tasks = tt }

  -- All is on record in every run.
  pub from_run :
      {p : Platform} (r : Reach c init p)
      → ((id : String) (before : NodeState) → Observes c id before r → Seen id before)
      → OnRecord c Seen p p
  from_run {p} r g = now-OnRecord init p (Reach-OnRecord r g init-OnRecord)

pub from_init : (c : Settings) {p : Platform} → Reach c init p → OnRecord c Anything p p
from_init c r = from_run c Anything r (λ _ _ _. tt)

-- Any run from what is on record.
pub onward :
    (c : Settings) {p q : Platform}
    → Reach c p q
    → OnRecord c Anything p p
    → OnRecord c Anything p q
onward c r h = Reach-OnRecord c Anything r (λ _ _ _. tt) h
