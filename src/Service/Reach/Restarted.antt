-- ===== src/Service/Reach/Restarted.antt =====
-- `Platform.start` over the table that an earlier process left.
use asl3_api.Prelude.{String, Bool, true, false, some, ◌≡◌, refl, arith}
use asl3_api.Errors.{Result, ok, err}
use asl3_api.Effects.{proceed}
use asl3_api.Models.{Operation}
use asl3_api.Ledger.{Db, select, find}
use asl3_api.Ledger.Methods as Methods
use asl3_api.Ledger.Recovery.{Recovered, recover_ok}
use asl3_api.Ledger.Safety.{select_rows}
use asl3_api.Service.{Platform, Settings, opened, on_ledger}
use asl3_api.Service.Runtime.{abandon, opening, open_ledger, start}
use asl3_api.Service.Reach.{Reach, init}
use asl3_api.Service.Safety.Tasks.{on_ledger_ok}
use asl3_api.Service.Record.{Anything}
use asl3_api.Service.Record.Steps.{onward, init-OnRecord}

module _ (c : Settings) where
  abandon_ok :
      (r : Result (Unit {0})) (p q : Platform) → abandon (r, p) ≡ (ok tt, q) → (r ≡ ok tt) × (p ≡ q)
  unfolding abandon
  abandon_ok (ok tt) p q e = (refl, ground arith)
  abandon_ok (err x) p q e = absurd (ground arith)

  -- A start that returned: the table was opened, then recovered.
  start_ok :
      (p q : Platform)
      → start c true p ≡ (ok tt, q)
      → (db : Db) × (db.rows ≡ p.db.rows) × (Methods.recover c.env c.node db ≡ (ok tt, q.db))
  unfolding start open_ledger
  start_ok p q e = go (select c.env (λ rows. tt {0}) p.db).0 e
    where
      r : Platform
      r = record p { owner_held = true; db = (select c.env (λ rows. tt {0}) p.db).1 }

      go :
          (x : Result (Unit {0}))
          → abandon (
              proceed
                (opening x r).0
                (λ _. on_ledger (Methods.recover c.env c.node))
                (opening x r).1)
            ≡ (ok tt, q)
          → (db : Db) × (db.rows ≡ p.db.rows) × (Methods.recover c.env c.node db ≡ (ok tt, q.db))
      go (err x) h = let (failed, _) = abandon_ok (err x) r q h in absurd (ground arith)
      go (ok u) h =
          let s : Platform = record r { ledger = opened } in
          let m = Methods.recover c.env c.node in
          let (returned, same) = abandon_ok (on_ledger m s).0 (on_ledger m s).1 q h in
          let all : on_ledger m s ≡ (ok tt, q) = λ i. (returned i, same i) in
          (s.db, select_rows c.env (λ rows. tt {0}) p.db, (on_ledger_ok m s q all).ran)

  lock_taken :
      (lock_free : Bool) (p q : Platform)
      → start c lock_free p ≡ (ok tt, q)
      → start c true p ≡ (ok tt, q)
  unfolding start
  lock_taken true p q e = e
  lock_taken false p q e = absurd (ground arith)

  -- In every run, a `start` that returns leaves each operation that the table had of the node
  -- terminal: one that was terminal is as it was, and another is NOT_DISPATCHED if it was QUEUED,
  -- else OUTCOME_UNKNOWN.
  pub start-Recovered :
      {p q : Platform} (lock_free : Bool) (id : String) (o : Operation)
      → Reach c init p
      → start c lock_free p ≡ (ok tt, q)
      → find c.node id p.db.rows ≡ some o
      → (new : Operation) × (find c.node id q.db.rows ≡ some new) × Recovered o new
  start-Recovered {p} {q} lock_free id o r e f =
      let (db, same, ran) = start_ok p q (lock_taken lock_free p q e) in
      recover_ok c.env c.node id db q.db o
        (rw same ((onward c r (init-OnRecord c Anything)).extends.unique tt)) ran (rw same f)
