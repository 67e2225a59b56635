-- ===== src/Ledger/Admission.antt =====
-- What `Ledger.admit` returned, and what later calls with its key return.
use asl3_api.Prelude.{ℕ, String, Bool, true, false, Option, none, some, List, ◌≡◌, arith, ◌∙◌}
use asl3_api.Errors.{Result, ok, err, problem, sqlite_error, >>=-returned}
use asl3_api.Errors as Errors
use asl3_api.Models.{Operation, Kind, Request}
use asl3_api.Ledger.{Env, Row, Db, transaction, insert}
use asl3_api.Ledger.Methods.{new_operation, new_row, existing, admit_new, admit}
use asl3_api.Ledger.History.{Writes, is_written, Agrees}
use asl3_api.Ledger.Safety.{insert_unwritten}

-- A transaction that returned has committed what its body returned.
pub transaction_ok :
    {A : Type 0} (env : Env) (body : ℕ → List Row → Result (A × List Row)) (db : Db) {a : A}
    {db' : Db}
    → transaction env body db ≡ (ok a, db')
    → body db.transactions db.rows ≡ ok (a, db'.rows)
unfolding transaction
transaction_ok env body db e = ground arith

module _ (env : Env) (node : String) where
  module _ (kind : Kind) (request : Request) (credential : String) (key : Option String) where
    abbrev pub admit_new_row : ℕ → Row
    admit_new_row n =
        new_row node (new_operation node kind request credential (env.uuid n) (env.now n)) key

    -- How an admission ended: with the operation of a row that was there, or with a new row.
    pub data Admitted (db db' : Db) (o : Operation) (created : Bool) : Type 0 where
      found :
          created ≡ false
          → existing env node kind request credential key db.rows ≡ ok (some o)
          → db'.rows ≡ db.rows
          → Admitted db db' o created
      inserted :
          created ≡ true
          → existing env node kind request credential key db.rows ≡ ok none
          → insert (admit_new_row db.transactions) db.rows ≡ ok db'.rows
          → o ≡ (admit_new_row db.transactions).document
          → Admitted db db' o created

    pub admit_cases :
        (db : Db) {o : Operation} {created : Bool} {db' : Db}
        → admit env node kind request credential key db ≡ (ok (o, created), db')
        → Admitted db db' o created
    unfolding admit admit_new
    admit_cases db {o} {created} {db'} e =
        let (old, looked, later) =
          >>=-returned (existing env node kind request credential key db.rows)
            (admit_new env node kind request credential key db.transactions db.rows)
            (transaction_ok env
              (λ n rows.
                Errors.◌>>=◌ (existing env node kind request credential key rows)
                  (admit_new env node kind request credential key n rows))
              db e) in
        go old looked later
      where
        go :
            (old : Option Operation)
            → existing env node kind request credential key db.rows ≡ ok old
            → admit_new env node kind request credential key db.transactions db.rows old
              ≡ ok ((o, created), db'.rows)
            → Admitted db db' o created
        go (some old) looked later = found (ground arith) (looked ∙ ground arith) (ground arith)
        go none looked later =
            let (rows, put, last) =
              >>=-returned (insert (admit_new_row db.transactions) db.rows)
                (λ l. ok (((admit_new_row db.transactions).document, true), l)) later in
            inserted (ground arith) looked (put ∙ ground arith) (ground arith)

    -- An operation is created only under an id that was never written.
    pub admit_unwritten :
        (writes : Writes) (db : Db) {o : Operation} {db' : Db}
        → Agrees node writes db.rows
        → admit env node kind request credential key db ≡ (ok (o, true), db')
        → is_written o.id writes ≡ false
    admit_unwritten writes db {o} {db'} a e = go (admit_cases db e)
      where
        go : Admitted db db' o true → is_written o.id writes ≡ false
        go (found c _ _) = absurd (ground arith)
        go (inserted _ _ put same) = rw same (
            insert_unwritten env node writes (admit_new_row db.transactions) db.rows db'.rows a put)
