-- ===== src/Ledger/Methods.antt =====
-- The methods of the class `Ledger` of vnext/ledger.py, for the configured node.
use mathlib.Core.List.{reverse}
use asl3_api.Prelude.{
  ℕ, String, Bool, true, false, not, ◌||◌, Option, none, some, List, [], ◌∷◌, take, drop, str_eq,
  if◌then◌else◌,
}
use asl3_api.Errors.{Exception, value_error, runtime_error, Result, ok, err}
use asl3_api.Errors as Errors
use asl3_api.Effects.{Effect, pure, lift, ◌>>=◌, ◌>>◌, require}
use asl3_api.Models.{
  Kind, Request, Operation, DispatchStatus, queued, dispatch_started, not_dispatched,
  outcome_unknown, EffectStatus, pending, not_attempted,
}
use asl3_api.Ledger.Canonical.{canonical}
use asl3_api.Ledger.{
  Env, Row, Db, transaction, select, find, write, find_key, match_request, insert, Changes,
  no_changes, revise,
}

-- `dispatch_status == "QUEUED"`
abbrev pub is_queued : DispatchStatus → Bool
is_queued queued = true
is_queued _ = false

-- `document` of each row of the node, in rowid order.
unfoldable pub documents : String → List Row → List Operation
documents node [] = []
documents node (row ∷ rows) =
    let rest = documents node rows in if str_eq row.node node then row.document ∷ rest else rest

-- The operation that `admit` inserts.
abbrev pub new_operation : String → Kind → Request → String → String → String → Operation
new_operation node kind request credential id timestamp = record {
  id = id;
  node = node;
  kind = kind;
  request = request;
  credential = credential;
  created_at = timestamp;
  updated_at = timestamp;
  dispatch_status = queued;
  effect_status = pending;
  terminal = false;
  semantic_error = none;
  evidence = none;
}

abbrev pub new_row : String → Operation → Option String → Row
new_row node o key = record {
  id = o.id;
  node = node;
  credential = o.credential;
  idempotency_key = key;
  canonical = canonical o.kind o.request;
  document = o;
}

-- The guard of `start_dispatch`: the operation may not cross the boundary.
abbrev pub may_not_start : Option Operation → Bool
may_not_start none = true
may_not_start (some o) = o.terminal || not (is_queued o.dispatch_status)

-- The changes of `recover` to an operation that crossed the boundary, and to one that did not.
abbrev pub recovery : Bool → Changes
recovery crossed = record {
  dispatch_status = some (if crossed then outcome_unknown else not_dispatched);
  effect_status = some (if crossed then EffectStatus.unknown else not_attempted);
  terminal = some true;
  semantic_error = some (
      if crossed
      then "PROCESS_RESTART_AFTER_POSSIBLE_DISPATCH"
      else "PROCESS_RESTART_BEFORE_DISPATCH");
  evidence = none;
}

module _ (env : Env) (node : String) where
  unfoldable pub get : String → Effect Db (Option Operation)
  unfolding select
  get operation_id = select env (find node operation_id)

  -- `ORDER BY rowid DESC LIMIT ? OFFSET ?`
  unfoldable pub list : ℕ → ℕ → Effect Db (List Operation)
  unfolding select documents
  list limit offset = select env (λ rows. take limit (drop offset (reverse (documents node rows))))

  -- The same text as `existing`, in a transaction of its own.
  unfoldable pub find_idempotent :
      Kind → Request → String → Option String → Effect Db (Option Operation)
  unfolding select
  find_idempotent kind request credential none = pure none
  find_idempotent kind request credential (some key) = do
    row ← select env (find_key node credential (some key))
    lift (match_request kind request row)

  unfoldable pub existing :
      Kind → Request → String → Option String → List Row → Result (Option Operation)
  existing kind request credential none rows = ok none
  existing kind request credential (some key) rows =
      match_request kind request (find_key node credential (some key) rows)

  -- What `admit` does once it has looked for an existing operation.
  unfoldable pub admit_new :
      Kind
      → Request
      → String
      → Option String
      → ℕ
      → List Row
      → Option Operation
      → Result ((Operation × Bool) × List Row)
  admit_new kind request credential key n rows (some operation) = ok ((operation, false), rows)
  admit_new kind request credential key n rows none =
      let operation = new_operation node kind request credential (env.uuid n) (env.now n) in
      Errors.◌>>=◌ (insert (new_row node operation key) rows) λ rows'. ok ((operation, true), rows')

  unfoldable pub admit : Kind → Request → String → Option String → Effect Db (Operation × Bool)
  unfolding transaction existing admit_new
  admit kind request credential key = transaction env λ n rows.
      Errors.◌>>=◌ (existing kind request credential key rows)
        (admit_new kind request credential key n rows)

  -- The body of the transaction of `update`.
  unfoldable pub update_rows :
      String → Changes → String → List Row → Option Operation → Result (Operation × List Row)
  update_rows operation_id changes at rows none = err (value_error "Unknown operation")
  update_rows operation_id changes at rows (some operation) =
      let revised = revise changes at operation in
      ok (revised, write node operation_id revised rows)

  unfoldable pub update : String → Changes → Effect Db Operation
  unfolding transaction update_rows
  update operation_id changes =
      transaction env
        λ n rows. update_rows operation_id changes (env.now n) rows (find node operation_id rows)

  unfoldable pub start_dispatch : String → Effect Db Operation
  unfolding get update
  start_dispatch operation_id = do
    operation ← get operation_id
    require (may_not_start operation)
        (runtime_error "Operation cannot cross dispatch boundary again")
    update operation_id (record no_changes { dispatch_status = some dispatch_started })

  unfoldable pub recover_one : Operation → Effect Db (Unit {0})
  unfolding update
  recover_one operation =
      if operation.terminal
      then pure tt
      else do update operation.id (recovery (not (is_queued operation.dispatch_status))); pure tt

  unfoldable pub recover_all : List Operation → Effect Db (Unit {0})
  unfolding recover_one
  recover_all [] = pure tt
  recover_all (operation ∷ rest) = let later = recover_all rest in recover_one operation >> later

  unfoldable pub recover : Effect Db (Unit {0})
  unfolding select documents recover_all
  recover = do operations ← select env (documents node); recover_all operations
