-- ===== src/Service/Record.antt =====
-- What every stretch of `execute` leaves on record: the operations in the table, and for each
-- control write the operation and the decision behind it.
pub mod Outcomes
pub mod Stretches
pub mod Runs
pub mod Steps
use asl3_api.Prelude.{
  ℕ, String, Bool, true, false, Option, none, some, List, [], ◌∷◌, All, All-map, ◌≡◌, refl, ◌∙◌, ap,
}
use asl3_api.Errors.{Result, ok, err, sqlite_error}
use asl3_api.Effects.{Effect, pure, proceed, ◌>>=◌}
use asl3_api.Models.{Operation, NodeState, Kind}
use asl3_api.Models.Command.{command_for}
use asl3_api.Policy.{enforce}
use asl3_api.Ledger.{Db, Row, Changes, find}
use asl3_api.Ledger.Methods as Methods
use asl3_api.Ledger.Persistence.{
  SameRequest, SameRequest-refl, SameRequest-trans, Extends, Extends-refl, Extends-trans,
}
use asl3_api.Ledger.Persistence.Methods.{update-Extends}
use asl3_api.Service.{
  Stage, created, observing, dispatching, verifying, sleeping, Worker, Connection, absent, opened,
  closed, Platform, Settings, call_ledger, on_ledger, absorb, save,
}
use asl3_api.Service.Execution.{Event, snapshot, Next, finished, await, save_and_return}

-- The connection of the ledger, and whether the lock of the node is held.
abbrev pub hold : Platform → Connection × Bool
hold p = (p.ledger, p.owner_held)

-- For a proof that asks nothing of what was observed.
abbrev pub Anything : String → NodeState → Type 0
Anything id before = Unit

-- `Seen id before`: the task of `id` was given the observation `before`.
module _ (c : Settings) (Seen : String → NodeState → Type 0) where
  -- The policy allowed the kind on an observation that the task of `id` was given, and the command is that of the operation.
  pub record Permitted (id : String) (o : Operation) (command : String) : Type 0 where
    pub built : command_for c.node o.kind o.request ≡ ok command
    pub before : NodeState
    pub seen : Seen id before
    pub allowed : enforce c.config o.kind before ≡ ok tt

  -- The table has the operation of a control write.
  pub record Recorded (rows : List Row) (w : String × String) : Type 0 where
    pub operation : Operation
    pub found : find c.node w.0 rows ≡ some operation
    pub permitted : Permitted w.0 operation w.1

  -- The table has the operation that a task works on.
  pub record Known (rows : List Row) (id : String) (o : Operation) : Type 0 where
    pub operation : Operation
    pub found : find c.node id rows ≡ some operation
    pub same : SameRequest o operation

  abbrev pub StageOk : List Row → String → Stage → Type 0
  StageOk rows id (observing o) = Known rows id o
  StageOk rows id (dispatching o command started) = Known rows id o × Permitted id o command
  StageOk rows id _ = Unit

  abbrev pub NextOk : List Row → String → Result Next → Type 0
  NextOk rows id (ok (await stage)) = StageOk rows id stage
  NextOk rows id _ = Unit

  -- The event's observation, if it has one, was seen.
  abbrev pub Sees : String → Event → Type 0
  Sees id event = (before : NodeState) (time : ℕ) → event ≡ snapshot before time → Seen id before

  abbrev pub WritesOk : Platform → Type 0
  WritesOk p = All (Recorded p.db.rows) p.writes

  pub Permitted-of_SameRequest :
      (id : String) (o o' : Operation) (command : String)
      → SameRequest o o'
      → Permitted id o command
      → Permitted id o' command
  Permitted-of_SameRequest id o o' command s h = record {
    built = rw (s.kind, s.request) h.built;
    before = h.before;
    seen = h.seen;
    allowed = rw s.kind h.allowed;
  }

  module _ (rows rows' : List Row) (x : Extends c.node rows rows') where
    Recorded-of_Extends : (w : String × String) → Recorded rows w → Recorded rows' w
    Recorded-of_Extends w h =
        let (o', found, same) = x.kept w.0 h.operation h.found in
        record {
          operation = o';
          found = found;
          permitted = Permitted-of_SameRequest w.0 h.operation o' w.1 same h.permitted;
        }

    pub All-Recorded :
        (ws : List (String × String)) → All (Recorded rows) ws → All (Recorded rows') ws
    All-Recorded ws h = All-map Recorded-of_Extends ws h

    pub Known-of_Extends : (id : String) (o : Operation) → Known rows id o → Known rows' id o
    Known-of_Extends id o h =
        let (o', found, same) = x.kept id h.operation h.found in
        record {
          operation = o';
          found = found;
          same = SameRequest-trans o h.operation o' h.same same;
        }

    pub StageOk-of_Extends :
        (id : String) (stage : Stage) → StageOk rows id stage → StageOk rows' id stage
    StageOk-of_Extends id created h = tt
    StageOk-of_Extends id (observing o) h = Known-of_Extends id o h
    StageOk-of_Extends id (dispatching o command started) h = (Known-of_Extends id o h.0, h.1)
    StageOk-of_Extends id (verifying o deadline) h = tt
    StageOk-of_Extends id (sleeping o deadline) h = tt

  -- The table grew; the history of writes and the tasks are those of `p`.
  pub record Grown (p q : Platform) : Type 0 where
    pub extends : Extends c.node p.db.rows q.db.rows
    pub same_writes : q.writes ≡ p.writes
    pub same_tasks : q.tasks ≡ p.tasks
    pub same_busy : q.busy_operation_id ≡ p.busy_operation_id
    pub same_hold : hold q ≡ hold p

  pub Grown-refl : (p : Platform) → Grown p p
  Grown-refl p = record {
    extends = Extends-refl c.node p.db.rows;
    same_writes = refl;
    same_tasks = refl;
    same_busy = refl;
    same_hold = refl;
  }

  -- What a stretch of the task of `id` leaves behind.
  pub record Traced (id : String) (p : Platform) (x : Result Next × Platform) : Type 0 where
    pub extends : Extends c.node p.db.rows x.1.db.rows
    pub same_tasks : x.1.tasks ≡ p.tasks
    pub same_hold : hold x.1 ≡ hold p
    pub writes : WritesOk x.1
    pub stage : NextOk x.1.db.rows id x.0

  pub call_ledger-Grown :
      {A : Type 0} (connection : Connection) (m : Effect Db A) (p : Platform)
      → Extends c.node p.db.rows (m p.db).1.rows
      → Grown p (call_ledger connection m p).1
  unfolding call_ledger
  call_ledger-Grown absent m p x = Grown-refl p
  call_ledger-Grown opened m p x = record {
    extends = x;
    same_writes = refl;
    same_tasks = refl;
    same_busy = refl;
    same_hold = refl;
  }
  call_ledger-Grown closed m p x = Grown-refl p

  pub on_ledger-Grown :
      {A : Type 0} (m : Effect Db A) (p : Platform)
      → Extends c.node p.db.rows (m p.db).1.rows
      → Grown p (on_ledger m p).1
  unfolding on_ledger
  on_ledger-Grown m p x = call_ledger-Grown p.ledger m p x

  absorb-Grown : (r : Result Operation) (p q : Platform) → Grown p q → Grown p (absorb r q).1
  unfolding absorb
  absorb-Grown (ok o) p q k = k
  absorb-Grown (err sqlite_error) p q k = record {
    extends = k.extends;
    same_writes = k.same_writes;
    same_tasks = k.same_tasks;
    same_busy = k.same_busy;
    same_hold = k.same_hold;
  }
  absorb-Grown (err e) p q k = k

  pub save-Grown :
      (id : String) (changes : Changes) (p : Platform) → Grown p (save c id changes p).1
  unfolding save
  save-Grown id changes p = absorb-Grown _ p _ (
      on_ledger-Grown (Methods.update c.env c.node id changes) p
        (update-Extends c.node c.env id changes p.db))

  pub WritesOk-of_Grown : (p q : Platform) → Grown p q → WritesOk p → WritesOk q
  WritesOk-of_Grown p q k h =
      rw k.same_writes (All-Recorded p.db.rows q.db.rows k.extends p.writes h)

  module _ (id : String) (p : Platform) (h : WritesOk p) where
    pub Traced-of_Grown :
        (q : Platform) (r : Result Next) → Grown p q → NextOk q.db.rows id r → Traced id p (r, q)
    Traced-of_Grown q r k n = record {
      extends = k.extends;
      same_tasks = k.same_tasks;
      same_hold = k.same_hold;
      writes = WritesOk-of_Grown p q k h;
      stage = n;
    }

    -- A part that leaves all on record, and what follows it.
    pub bind-Traced :
        {A : Type 0} (m : Effect Platform A) (f : A → Effect Platform Next)
        → Grown p (m p).1
        → ((a : A) → m p ≡ (ok a, (m p).1) → Traced id p (f a (m p).1))
        → Traced id p ((m >>= f) p)
    bind-Traced {A} m f k later = after (m p).0 refl
      where
        after : (r : Result A) → (m p).0 ≡ r → Traced id p (proceed r f (m p).1)
        after (ok a) e = later a (λ i. (e i, (m p).1))
        after (err x) e = Traced-of_Grown (m p).1 (err x) k tt

    pub save_and_return-Traced : (changes : Changes) → Traced id p (save_and_return c id changes p)
    save_and_return-Traced changes =
        bind-Traced (save c id changes) (λ _. pure finished) (save-Grown id changes p)
          λ o _. Traced-of_Grown (save c id changes p).1 (ok finished) (save-Grown id changes p) tt

  pub Traced-trans :
      (id : String) (p q : Platform) (x : Result Next × Platform)
      → Grown p q
      → Traced id q x
      → Traced id p x
  Traced-trans id p q x k h = record {
    extends = Extends-trans c.node p.db.rows q.db.rows x.1.db.rows k.extends h.extends;
    same_tasks = h.same_tasks ∙ k.same_tasks;
    same_hold = h.same_hold ∙ k.same_hold;
    writes = h.writes;
    stage = h.stage;
  }
