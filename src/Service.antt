-- ===== src/Service.antt =====
-- vnext/service.py: the state of `Platform`, `effect_status`, and the parts that its methods share.
-- `execute` is a coroutine: a `Worker` is a started task, and a `Stage` is the `await` at which it
-- waits, with the local variables that live across it.
pub mod Status
pub mod Admission
pub mod Execution
pub mod Runtime
pub mod Evidence
pub mod Safety
pub mod Record
pub mod Reach
use asl3_api.Prelude.{
  ℕ, suc, String, Bool, true, false, not, ◌||◌, Option, none, some, List, [], ◌∷◌, Dict, str_eq,
  if◌then◌else◌,
}
use asl3_api.Errors.{Exception, problem, attribute_error, sqlite_error, Result, ok, err}
use asl3_api.Effects.{Effect, pure, raise, ◌>>=◌, ◌>>◌, require}
use asl3_api.Models.{Operation}
use asl3_api.Config.{Value}
use asl3_api.Ledger.{Env, Db, Changes}
use asl3_api.Ledger.Methods.{update}

pub data Stage : Type 0 where
  -- the task is created and its coroutine has not begun
  created : Stage
  -- `before = await self.observer.snapshot()`
  observing : Operation → Stage
  -- `await asyncio.wait_for(self.transport.dispatch(command, barrier), …)`, with `started`
  dispatching : Operation → (command : String) (started : Bool) → Stage
  -- `last_state = await self.observer.snapshot()` and `await asyncio.sleep(…)` of `verify_effect`
  verifying sleeping : Operation → (deadline : ℕ) → Stage

-- The local variable `started` of `execute`.
abbrev pub has_started : Stage → Bool
has_started created = false
has_started (observing o) = false
has_started (dispatching o command started) = started
has_started (verifying o deadline) = true
has_started (sleeping o deadline) = true

pub record Worker : Type 0 where
  pub id : String
  pub stage : Stage

-- `self.ledger`: `None`, a ledger, or one whose connection is closed.
pub data Connection : Type 0 where
  absent opened closed : Connection

-- `writes` is a history: the operation and the command of each control message that was written.
pub record Platform : Type 0 where
  pub db : Db
  pub ledger : Connection
  pub owner_held : Bool
  pub tasks : List Worker
  pub busy_operation_id : Option String
  pub healthy : Bool
  pub closing : Bool
  pub generation : ℕ
  pub writes : List (String × String)

-- What does not change while the service runs. `effect_timeout` and the loop's time are in one unit.
pub record Settings : Type 0 where
  pub env : Env
  pub node : String
  pub config : Value
  pub effect_timeout : ℕ

-- A call of the ledger: `None` has no methods, and a closed connection raises an `sqlite3.Error`.
unfoldable pub call_ledger : {A : Type 0} → Connection → Effect Db A → Effect Platform A
call_ledger absent m p = (err (attribute_error "'NoneType' object has no attribute"), p)
call_ledger closed m p = (err sqlite_error, p)
call_ledger opened m p = let (r, db') = m p.db in (r, record p { db = db' })

unfoldable pub on_ledger : {A : Type 0} → Effect Db A → Effect Platform A
on_ledger m p = call_ledger p.ledger m p

abbrev pub is_absent : Connection → Bool
is_absent absent = true
is_absent _ = false

unfoldable pub require_ledger : Effect Platform (Unit {0})
require_ledger p =
    if is_absent p.ledger || (not p.owner_held || p.closing)
    then (err (problem 503 "CONTROL_UNAVAILABLE"), p)
    else if not p.healthy
    then (err (problem 503 "LEDGER_UNAVAILABLE"), p)
    else (ok tt, p)

-- The `except sqlite3.Error` of `save`.
unfoldable pub absorb : Result Operation → Platform → Result (Option Operation) × Platform
absorb (ok o) p = (ok (some o), p)
absorb (err sqlite_error) p = (ok none, record p { healthy = false })
absorb (err e) p = (err e, p)

unfoldable pub save : Settings → String → Changes → Effect Platform (Option Operation)
save c operation_id changes p =
    let (r, p') = on_ledger (update c.env c.node operation_id changes) p in absorb r p'
