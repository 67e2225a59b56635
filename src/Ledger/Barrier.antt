-- ===== src/Ledger/Barrier.antt =====
-- The durable barrier: what a `start_dispatch` that returned says, and what it allows.
use asl3_api.Prelude.{
  suc, String, Bool, true, false, some, List, [], ◌∷◌, ◌++◌, all, str_eq, eq_iff, if◌then◌else◌,
  ◌≡◌, refl, arith, Option-cases, Bool-cases, inl, inr, ◌∙◌,
}
use asl3_api.Errors.{ok}
use asl3_api.Models.{Operation, DispatchStatus, queued, dispatch_started}
use asl3_api.Ledger.{Env, Row, Db, transaction, select, at_id, find, write, no_changes, revise}
use asl3_api.Ledger.Methods.{is_queued, get, update, update_rows, start_dispatch}
use asl3_api.Ledger.Rows.{find-write}
use asl3_api.Ledger.History.{
  Writes, times_written-append, is_written, fits, row_ok, row_ok_of_parts, row_ok_of_elsewhere,
  Agrees, find_ok,
}

abbrev pub started_at : String → Operation → Operation
started_at at o = revise (record no_changes { dispatch_status = some dispatch_started }) at o

module _ (env : Env) (node id : String) where
  -- A `start_dispatch` that returned has found the operation QUEUED and not terminal, and has
  -- written it back with DISPATCH_STARTED.
  pub start_dispatch_ok :
      (db : Db) {o : Operation} {db' : Db}
      → start_dispatch env node id db ≡ (ok o, db')
      → (old : Operation) × (find node id db.rows ≡ some old)
        × (is_queued old.dispatch_status ≡ true)
        × (old.terminal ≡ false)
        × (db'.rows ≡ write node id (started_at (env.now (suc db.transactions)) old) db.rows)
  unfolding start_dispatch get select update update_rows transaction
  start_dispatch_ok db e = elim (Option-cases (find node id db.rows)) [
    | inl missing ↦ absurd (ground (arith, missing))
    | inr (old, found) ↦
        (old, found, ground (arith, found), ground (arith, found), ground (arith, found))
  ]

unwritten_of_queued :
    (w : Bool) (s : DispatchStatus) → is_queued s ≡ true → fits w s ≡ true → w ≡ false
unwritten_of_queued false s q f = refl
unwritten_of_queued true queued q f = cc
unwritten_of_queued true s q f = cc

module _ (node id command : String) (writes : Writes) where
  abbrev written_now : Writes
  written_now = writes ++ (id, command) ∷ []

  row_ok_elsewhere :
      (row : Row)
      → str_eq row.id id ≡ false
      → row_ok node writes row ≡ true
      → row_ok node written_now row ≡ true
  unfolding row_ok
  row_ok_elsewhere row other h =
      let same : is_written row.id written_now ≡ is_written row.id writes = ground (
        arith,
        times_written-append row.id writes (id, command),
        eq_iff row.id id,
        eq_iff id row.id,
      ) in
      rw same h

  row_ok-written_now :
      (row : Row) (o : Operation)
      → o.id ≡ id
      → fits true o.dispatch_status ≡ true
      → row_ok node writes row ≡ true
      → row_ok node written_now (if at_id node id row then record row { document = o } else row)
        ≡ true
  row_ok-written_now row o i f h = elim (Bool-cases (str_eq row.id id)) [
    | inl same ↦ elim (Bool-cases (str_eq row.node node)) [
      | inl here ↦
          rw (same, here)
            (row_ok_of_parts node written_now (record row { document = o })
              (i ∙ ground (arith, eq_iff row.id id)) (ground (arith, f)))
      | inr elsewhere ↦ rw (same, elsewhere) (row_ok_of_elsewhere node written_now row elsewhere)
    ]
    | inr other ↦ rw other (row_ok_elsewhere row other h)
  ]

  all-row_ok-written_now :
      (rows : List Row) (o : Operation)
      → o.id ≡ id
      → fits true o.dispatch_status ≡ true
      → all (row_ok node writes) rows ≡ true
      → all (row_ok node written_now) (write node id o rows) ≡ true
  unfolding write
  all-row_ok-written_now [] o i f h = refl
  all-row_ok-written_now (row ∷ rows) o i f h =
      rw (row_ok-written_now row o i f (ground arith))
        (all-row_ok-written_now rows o i f (ground arith))

  pub barrier-Agrees :
      (env : Env) (db : Db) {o : Operation} {db' : Db}
      → Agrees node writes db.rows
      → start_dispatch env node id db ≡ (ok o, db')
      → Agrees node written_now db'.rows
  barrier-Agrees env db {o} {db'} a e =
      let (old, found, still_queued, _, wrote) = start_dispatch_ok env node id db e in
      let (same, fit) = find_ok node writes id db.rows old a.rows_ok found in
      let unwritten : is_written id writes ≡ false =
        unwritten_of_queued (is_written id writes) old.dispatch_status still_queued fit in
      let new = started_at (env.now (suc db.transactions)) old in
      rw wrote (record {
        rows_ok = all-row_ok-written_now db.rows new same (ground arith) a.rows_ok;
        present = λ j w. ground (
          arith,
          find-write node id j new db.rows,
          found,
          eq_iff id j,
          a.present j,
          times_written-append j writes (id, command),
        );
        once =
            λ j. ground (arith, times_written-append j writes (id, command), a.once j, eq_iff id j);
      })
