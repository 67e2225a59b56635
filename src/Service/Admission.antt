-- ===== src/Service/Admission.antt =====
-- `Platform.admit` of vnext/service.py. The method has no `await`, so it is one step.
use asl3_api.Prelude.{String, Bool, true, false, not, Option, none, some, ◌∷◌, is_some}
use asl3_api.Errors.{problem, Result, ok, err}
use asl3_api.Effects.{Effect, pure, lift, gets, ◌>>=◌, ◌>>◌, require}
use asl3_api.Models.{Kind, Request, Operation}
use asl3_api.Models.Command.{command_for}
use asl3_api.Ledger.Methods as Methods
use asl3_api.Service.{created, Platform, Settings, on_ledger, require_ledger}

abbrev pub set_busy : Option String → Platform → Platform
set_busy busy p = record p { busy_operation_id = busy }

-- `asyncio.create_task(self.execute(operation.id))`
abbrev pub spawn : String → Platform → Platform
spawn id p = record p {
  busy_operation_id = some id;
  tasks = record { id = id; stage = created } ∷ p.tasks;
}

-- The `try` around `ledger.admit`, whose handler frees the slot and raises again.
unfoldable pub reserved : Result (Operation × Bool) → Effect Platform Operation
reserved (ok (operation, true)) p = (ok operation, spawn operation.id p)
reserved (ok (operation, false)) p = (ok operation, set_busy none p)
reserved (err e) p = (err e, set_busy none p)

module _ (c : Settings) where
  unfoldable pub reserve : Kind → Request → String → Option String → Effect Platform Operation
  reserve kind request credential key p =
      let (r, p') =
        on_ledger (Methods.admit c.env c.node kind request credential key)
          (set_busy (some "RESERVING") p) in
      reserved r p'

  unfoldable pub admit_fresh :
      Kind → Request → String → Option String → Option Operation → Effect Platform Operation
  admit_fresh kind request credential key (some operation) = pure operation
  admit_fresh kind request credential key none = do
    busy ← gets (λ p. is_some p.busy_operation_id)
    require busy (problem 409 "NODE_BUSY")
    reserve kind request credential key

  unfoldable pub admit : Kind → Request → String → Option String → Effect Platform Operation
  admit kind request credential key = do
    require_ledger
    lift (command_for c.node kind request)
    unhealthy ← gets (λ p. not p.healthy)
    require unhealthy (problem 503 "LEDGER_UNAVAILABLE")
    existing ← on_ledger (Methods.find_idempotent c.env c.node kind request credential key)
    admit_fresh kind request credential key existing
