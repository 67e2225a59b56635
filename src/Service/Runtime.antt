-- ===== src/Service/Runtime.antt =====
-- `Platform.__init__`, `start` and `close` of vnext/service.py.
use asl3_api.Prelude.{◌+◌, String, Bool, true, false, none, List, [], ◌∷◌, if◌then◌else◌}
use asl3_api.Errors.{os_error, Result, ok, err}
use asl3_api.Effects.{Effect, ◌>>=◌}
use asl3_api.Ledger.{Db, select}
use asl3_api.Ledger.Methods as Methods
use asl3_api.Service.{Worker, Platform, Connection, absent, opened, closed, Settings, on_ledger}
use asl3_api.Service.Execution.{cancel, advance}

-- A new process over the database and the history of an earlier one.
abbrev pub boot : Db → List (String × String) → Platform
boot db writes = record {
  db = db;
  ledger = absent;
  owner_held = false;
  tasks = [];
  busy_operation_id = none;
  healthy = true;
  closing = false;
  generation = 0;
  writes = writes;
}

abbrev closed_ledger : Connection → Connection
closed_ledger absent = absent
closed_ledger _ = closed

-- The `except BaseException` of `start`.
unfoldable pub abandon : Result (Unit {0}) × Platform → Result (Unit {0}) × Platform
abandon (ok _, p) = (ok tt, p)
abandon (err e, p) = (err e, record p { ledger = closed_ledger p.ledger; owner_held = false })

abbrev pub opening : Result (Unit {0}) → Platform → Result (Unit {0}) × Platform
opening (ok _) q = (ok tt, record q { ledger = opened })
opening (err e) q = (err e, q)

-- `Ledger(path, node)`: the PRAGMA and CREATE TABLE statements leave the rows alone.
unfoldable pub open_ledger : Settings → Effect Platform (Unit {0})
open_ledger c p = let (r, db') = select c.env (λ rows. tt) p.db in opening r (record p { db = db' })

-- `lock_free`: whether `flock` on the node's lock file succeeds.
unfoldable pub start : Settings → Bool → Effect Platform (Unit {0})
start c lock_free p =
    if lock_free
    then abandon (
        (open_ledger c >>= λ _. on_ledger (Methods.recover c.env c.node))
          (record p { owner_held = true }))
    else (err os_error, p)

-- `close` up to its `gather`: the tasks are then cancelled, and `close_end` waits for them.
abbrev pub close_begin : Platform → Platform
close_begin p = record p { closing = true; generation = p.generation + 1 }

unfoldable pub cancel_tasks : Settings → List Worker → Platform → Platform
cancel_tasks c [] p = p
cancel_tasks c (w ∷ rest) p = cancel_tasks c rest (advance c w.id cancel p)

abbrev pub close_end : Platform → Platform
close_end p = record p { busy_operation_id = none; ledger = absent; owner_held = false }

unfoldable pub close : Settings → Platform → Platform
close c p = let q = close_begin p in close_end (cancel_tasks c q.tasks q)
