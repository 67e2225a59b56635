-- ===== src/Ledger/Safety.antt =====
-- Every method of the ledger keeps the table in agreement with the history of control writes.
pub mod Restart
use asl3_api.Prelude.{
  ℕ, String, Bool, true, false, not, Option, none, some, List, [], ◌∷◌, ◌++◌, all, All, str_eq, ◌≡◌,
  refl, arith, Option-cases, Bool-cases, inl, inr, sym, subst,
}
use asl3_api.Errors.{Result, ok, err, sqlite_error, >>=-returned}
use asl3_api.Errors as Errors
use asl3_api.Effects.{bind_keeps}
use asl3_api.Models.{Operation, Kind, Request, dispatch_started}
use asl3_api.Ledger.{
  Env, Row, Db, transaction, outcome, select, find, write, insert, Changes, no_changes, revise,
}
use asl3_api.Ledger.Methods.{
  is_queued, documents, new_operation, new_row, get, existing, admit_new, admit, update_rows,
  update, start_dispatch, may_not_start, recovery, recover_one, recover_all, recover,
}
use asl3_api.Ledger.Rows.{any-id_of_insert, find-append, any-id_of_find}
use asl3_api.Ledger.History.{
  Writes, is_written, changes_fit, row_ok, row_ok_parts, row_ok_of_parts, Agrees, all-row_ok-append,
  revise-Agrees,
}

-- A transaction rolls back, or leaves the rows that its body returned.
pub transaction_cases {ℓ} :
    {A : Type 0} (P : List Row → Type ℓ) (env : Env) (body : ℕ → List Row → Result (A × List Row))
    (db : Db)
    → P db.rows
    → ((a : A) (rows : List Row) → body db.transactions db.rows ≡ ok (a, rows) → P rows)
    → P (transaction env body db).1.rows
unfolding transaction
transaction_cases P env body db kept done = elim (Bool-cases (env.fails db.transactions)) [
  | inl fails ↦ rw fails kept
  | inr works ↦ rw works (committed (body db.transactions db.rows) refl)
]
  where
    committed : (r : Result _) → body db.transactions db.rows ≡ r → P (outcome db r).1.rows
    committed (ok (a, rows)) e = done a rows e
    committed (err e) same = kept

-- What a SELECT that returned has read, and that it changed no row.
pub select_value :
    {A : Type 0} (env : Env) (query : List Row → A) (db : Db) {a : A} {db' : Db}
    → select env query db ≡ (ok a, db')
    → a ≡ query db.rows
unfolding select transaction
select_value env query db e = ground arith

pub select_rows :
    {A : Type 0} (env : Env) (query : List Row → A) (db : Db)
    → (select env query db).1.rows ≡ db.rows
unfolding select transaction
select_rows env query db = ground arith

module _ (env : Env) (node : String) (writes : Writes) where
  pub update-Agrees :
      (id : String) (changes : Changes) (db : Db)
      → Agrees node writes db.rows
      → changes_fit (is_written id writes) changes.dispatch_status ≡ true
      → Agrees node writes (update env node id changes db).1.rows
  unfolding update update_rows
  update-Agrees id changes db a f =
      transaction_cases (Agrees node writes) env
        (λ n rows. update_rows env node id changes (env.now n) rows (find node id rows)) db a
        λ o rows e. elim (Option-cases (find node id db.rows)) [
          | inl missing ↦ absurd (ground (arith, missing, e))
          | inr (old, found) ↦
              let same : write node id (revise changes (env.now db.transactions) old) db.rows
                  ≡ rows =
                ground (arith, found, e) in
              rw (← same) (
                revise-Agrees node writes id changes (env.now db.transactions) db.rows old a found
                  f)
        ]

  pub select-Agrees :
      {A : Type 0} (query : List Row → A) (db : Db)
      → Agrees node writes db.rows
      → Agrees node writes (select env query db).1.rows
  unfolding select
  select-Agrees query db a =
      transaction_cases (Agrees node writes) env (λ n rows. ok (query rows, rows)) db a
        λ b rows e. let same : db.rows ≡ rows = ground arith in rw (← same) a

  pub get-Agrees :
      (id : String) (db : Db)
      → Agrees node writes db.rows
      → Agrees node writes (get env node id db).1.rows
  unfolding get
  get-Agrees id db a = select-Agrees (find node id) db a

  pub start_dispatch-Agrees :
      (id : String) (db : Db)
      → Agrees node writes db.rows
      → Agrees node writes (start_dispatch env node id db).1.rows
  unfolding start_dispatch
  start_dispatch-Agrees id db a =
      bind_keeps (λ s. Agrees node writes s.rows) (get env node id) _ db
        (select-Agrees (find node id) db a)
        λ o _. elim (Bool-cases (may_not_start o)) [
          | inl refused ↦ rw refused (select-Agrees (find node id) db a)
          | inr queued_still ↦ rw queued_still (
              update-Agrees id (record no_changes { dispatch_status = some dispatch_started })
                (get env node id db).1 (select-Agrees (find node id) db a) (ground arith))
        ]

  -- A row is inserted only for an operation that was never written.
  pub insert_unwritten :
      (new : Row) (rows rows' : List Row)
      → Agrees node writes rows
      → insert new rows ≡ ok rows'
      → is_written new.id writes ≡ false
  insert_unwritten new rows rows' a e =
      let absent = any-id_of_insert new rows rows' e in
      elim (Bool-cases (is_written new.id writes)) [
        | inl w ↦ cc (absent, any-id_of_find node new.id rows (a.present new.id w))
        | inr h ↦ h
      ]

  insert-Agrees :
      (new : Row) (rows rows' : List Row)
      → Agrees node writes rows
      → insert new rows ≡ ok rows'
      → new.document.id ≡ new.id
      → Agrees node writes rows'
  insert-Agrees new rows rows' a e i =
      let unwritten = insert_unwritten new rows rows' a e in
      let same : rows ++ new ∷ [] ≡ rows' = unfold insert in ground arith in
      rw (← same) (record {
        rows_ok =
            all-row_ok-append node writes rows new a.rows_ok
              (row_ok_of_parts node writes new i (rw unwritten));
        present = λ j w. ground (arith, find-append node j rows (new ∷ []), a.present j w);
        once = a.once;
      })

  admit_new-Agrees :
      (kind : Kind) (request : Request) (credential : String) (key : Option String) (n : ℕ)
      (rows : List Row) (found : Option Operation) (result : Operation × Bool) (rows' : List Row)
      → Agrees node writes rows
      → admit_new env node kind request credential key n rows found ≡ ok (result, rows')
      → Agrees node writes rows'
  unfolding admit_new
  admit_new-Agrees kind request credential key n rows (some o) result rows' a e =
      let same : rows ≡ rows' = ground arith in rw (← same) a
  admit_new-Agrees kind request credential key n rows none result rows' a e =
      let o = new_operation node kind request credential (env.uuid n) (env.now n) in
      let new = new_row node o key in
      let (later, inserted, last) =
        >>=-returned (insert new rows) (λ l. ok ((o, true), l)) {b = (result, rows')} e in
      let same : later ≡ rows' = ground arith in
      rw (← same) (insert-Agrees new rows later a inserted refl)

  pub admit-Agrees :
      (kind : Kind) (request : Request) (credential : String) (key : Option String) (db : Db)
      → Agrees node writes db.rows
      → Agrees node writes (admit env node kind request credential key db).1.rows
  unfolding admit
  admit-Agrees kind request credential key db a =
      transaction_cases (Agrees node writes) env
        (λ n rows.
          Errors.◌>>=◌ (existing env node kind request credential key rows)
            (admit_new env node kind request credential key n rows))
        db a
        λ result rows e.
          let (found, _, later) =
            >>=-returned (existing env node kind request credential key db.rows)
              (admit_new env node kind request credential key db.transactions db.rows) e in
          admit_new-Agrees kind request credential key db.transactions db.rows found result rows a
            later
