-- ===== src/Ledger.antt =====
-- vnext/ledger.py: the operations table, its transactions, and the class `Ledger`.
-- A row keeps the operation itself where the table keeps its JSON document.
pub mod Canonical
pub mod Methods
pub mod Rows
pub mod History
pub mod Safety
pub mod Barrier
pub mod Admission
pub mod Idempotency
pub mod Recovery
pub mod Persistence
pub mod Calls
pub mod Retries
pub mod Owner
pub mod Exclusive
use mathlib.Core.List.{reverse}
use asl3_api.Prelude.{
  ℕ, suc, String, Bool, true, false, not, ◌&&◌, ◌||◌, Option, none, some, List, [], ◌∷◌, ◌++◌, any,
  take, drop, str_eq, if◌then◌else◌,
}
use asl3_api.Errors.{Exception, problem, value_error, runtime_error, sqlite_error, Result, ok, err}
use asl3_api.Effects.{Effect, pure, raise, lift, ◌>>=◌, ◌>>◌, require}
use asl3_api.Models.{
  Kind, Request, Operation, NodeState, DispatchStatus, queued, dispatch_started, not_dispatched,
  outcome_unknown, EffectStatus, pending, not_attempted,
}
use Canonical.{canonical}

-- What the n-th transaction meets: whether sqlite fails, the time `now()`, and a fresh `uuid4`.
pub record Env : Type 0 where
  pub fails : ℕ → Bool
  pub now : ℕ → String
  pub uuid : ℕ → String

pub record Row : Type 0 where
  pub id : String
  pub node : String
  pub credential : String
  pub idempotency_key : Option String
  pub canonical : String
  pub document : Operation

-- The table in rowid order, and the number of transactions so far.
pub record Db : Type 0 where
  pub rows : List Row
  pub transactions : ℕ

abbrev outcome : {A : Type 0} → Db → Result (A × List Row) → Result A × Db
outcome db (ok (a, rows)) = (ok a, record { rows = rows; transactions = suc db.transactions })
outcome db (err e) = (err e, record { rows = db.rows; transactions = suc db.transactions })

-- `with self.db:` commits what the body returns, and rolls back when anything raises.
unfoldable pub transaction :
    {A : Type 0} → Env → (ℕ → List Row → Result (A × List Row)) → Effect Db A
transaction env body db =
    outcome db
      (if env.fails db.transactions then err sqlite_error else body db.transactions db.rows)

-- A SELECT.
unfoldable pub select : {A : Type 0} → Env → (List Row → A) → Effect Db A
unfolding transaction
select env query = transaction env (λ n rows. ok (query rows, rows))

-- `WHERE id=? AND node=?`
abbrev pub at_id : String → String → Row → Bool
at_id node id row = str_eq row.id id && str_eq row.node node

unfoldable pub find : String → String → List Row → Option Operation
find node id [] = none
find node id (row ∷ rows) = if at_id node id row then some row.document else find node id rows

-- `UPDATE operations SET document=? WHERE id=? AND node=?`
unfoldable pub write : String → String → Operation → List Row → List Row
write node id operation [] = []
write node id operation (row ∷ rows) =
    (if at_id node id row then record row { document = operation } else row)
    ∷ write node id operation rows

abbrev pub same_key : Option String → Option String → Bool
same_key (some j) (some k) = str_eq j k
same_key _ none = false
same_key none (some k) = false

-- `WHERE node=? AND credential=? AND idempotency_key=?`
abbrev pub at_key : String → String → Option String → Row → Bool
at_key node credential key row =
    str_eq row.node node && (str_eq row.credential credential && same_key row.idempotency_key key)

unfoldable pub find_key : String → String → Option String → List Row → Option Row
find_key node credential key [] = none
find_key node credential key (row ∷ rows) =
    if at_key node credential key row then some row else find_key node credential key rows

-- The key's row against the request: the operation, or the conflict.
unfoldable pub match_request : Kind → Request → Option Row → Result (Option Operation)
match_request kind request none = ok none
match_request kind request (some row) =
    if str_eq row.canonical (canonical kind request)
    then ok (some row.document)
    else err (problem 409 "IDEMPOTENCY_CONFLICT")

-- PRIMARY KEY and UNIQUE(node, credential, idempotency_key), where NULL keys are distinct.
abbrev pub violates : Row → List Row → Bool
violates new =
    any (λ row. str_eq row.id new.id || at_key new.node new.credential new.idempotency_key row)

unfoldable pub insert : Row → List Row → Result (List Row)
insert new rows = if violates new rows then err sqlite_error else ok (rows ++ new ∷ [])

-- The keyword arguments of `update`; `none` is an argument that is not given.
pub record Changes : Type 0 where
  pub dispatch_status : Option DispatchStatus
  pub effect_status : Option EffectStatus
  pub terminal : Option Bool
  pub semantic_error : Option String
  pub evidence : Option NodeState

abbrev pub no_changes : Changes
no_changes = record {
  dispatch_status = none;
  effect_status = none;
  terminal = none;
  semantic_error = none;
  evidence = none;
}

abbrev pub given {ℓ} : {A : Type ℓ} → Option A → A → A
given none old = old
given (some new) old = new

abbrev given_option {ℓ} : {A : Type ℓ} → Option A → Option A → Option A
given_option none old = old
given_option (some new) old = some new

-- `{**operation.model_dump(), **changes, "updated_at": now()}`
abbrev pub revise : Changes → String → Operation → Operation
revise c at o = record o {
  updated_at = at;
  dispatch_status = given c.dispatch_status o.dispatch_status;
  effect_status = given c.effect_status o.effect_status;
  terminal = given c.terminal o.terminal;
  semantic_error = given_option c.semantic_error o.semantic_error;
  evidence = given_option c.evidence o.evidence;
}
