-- ===== src/Service/Safety/Entries.antt =====
-- `admit`, `start` and `close` keep the invariant.
use asl3_api.Prelude.{
  String, Bool, true, false, not, Option, none, some, List, [], ◌∷◌, is_some, ◌≡◌, refl, arith,
  Bool-cases, inl, inr,
}
use asl3_api.Errors.{Result, ok, err, Result-cases}
use asl3_api.Effects.{Effect, bind_keeps}
use asl3_api.Models.{Operation, Kind, Request}
use asl3_api.Models.Command.{command_for}
use asl3_api.Ledger.{Db, select, find_key}
use asl3_api.Ledger.Methods as Methods
use asl3_api.Ledger.History.{Writes, is_written, Agrees}
use asl3_api.Ledger.Safety.{select-Agrees, admit-Agrees}
use asl3_api.Ledger.Safety.Restart.{recover-Agrees}
use asl3_api.Ledger.Admission.{admit_unwritten}
use asl3_api.Service.{Worker, Platform, Settings, on_ledger, require_ledger}
use asl3_api.Service.Admission.{set_busy, reserved, reserve, admit_fresh, admit}
use asl3_api.Service.Runtime.{boot, abandon, open_ledger, opening, start}
use asl3_api.Service.Safety.{Kept, on_ledger-Kept}
use asl3_api.Service.Safety.Tasks.{require_ledger_same, on_ledger_ok}
use asl3_api.Service.Safety.Invariant.{SlotOk, Inv}

module _ (c : Settings) where
  Inv-of_Kept : (p q : Platform) → Inv c p → Kept c p q → Inv c q
  Inv-of_Kept p q h k = record {
    agrees = k.agrees;
    slot = rw (k.same_tasks, k.same_busy, k.same_writes) h.slot;
  }

  -- A free slot has no task.
  no_tasks :
      (ts : List Worker) (busy : Option String) (writes : Writes)
      → SlotOk ts busy writes
      → is_some busy ≡ false
      → ts ≡ []
  no_tasks [] busy writes s f = refl
  no_tasks (w ∷ []) busy writes s f = absurd (ground (arith, s.0))
  no_tasks (_ ∷ _ ∷ _) busy writes s f = absurd s

  module _ (kind : Kind) (request : Request) (credential : String) (key : Option String) where
    reserved-Inv :
        (p q : Platform) (r : Result (Operation × Bool))
        → p.tasks ≡ []
        → Kept c p q
        → ((o : Operation) → r ≡ ok (o, true) → is_written o.id q.writes ≡ false)
        → Inv c (reserved r q).1
    unfolding reserved
    reserved-Inv p q (ok (o, true)) t k u = record {
      agrees = k.agrees;
      slot = rw (k.same_tasks, t) (refl, λ _. u o refl);
    }
    reserved-Inv p q (ok (o, false)) t k u = record {
      agrees = k.agrees;
      slot = rw (k.same_tasks, t) tt;
    }
    reserved-Inv p q (err e) t k u = record { agrees = k.agrees; slot = rw (k.same_tasks, t) tt }

    reserve-Inv :
        (p : Platform)
        → Inv c p
        → is_some p.busy_operation_id ≡ false
        → Inv c (reserve c kind request credential key p).1
    unfolding reserve
    reserve-Inv p h f =
        reserved-Inv p0 (on_ledger m p0).1 (on_ledger m p0).0
          (no_tasks p.tasks p.busy_operation_id p.writes h.slot f) k
          λ o e.
            let done = on_ledger_ok m p0 (on_ledger m p0).1 (λ i. (e i, (on_ledger m p0).1)) in
            rw done.same_writes (
              admit_unwritten c.env c.node kind request credential key p.writes p.db h.agrees
                done.ran)
      where
        p0 : Platform
        p0 = set_busy (some "RESERVING") p

        m : Effect Db (Operation × Bool)
        m = Methods.admit c.env c.node kind request credential key

        k : Kept c p0 (on_ledger m p0).1
        k =
            on_ledger-Kept c m p0 h.agrees
              (admit-Agrees c.env c.node p.writes kind request credential key p.db h.agrees)

    admit_fresh-Inv :
        (existing : Option Operation) (p : Platform)
        → Inv c p
        → Inv c (admit_fresh c kind request credential key existing p).1
    unfolding admit_fresh
    admit_fresh-Inv (some o) p h = h
    admit_fresh-Inv none p h = elim (Bool-cases (is_some p.busy_operation_id)) [
      | inl busy ↦ rw busy h
      | inr free ↦ rw free (reserve-Inv p h free)
    ]

    find_idempotent-Agrees :
        (writes : Writes) (db : Db)
        → Agrees c.node writes db.rows
        → Agrees c.node writes
            (Methods.find_idempotent c.env c.node kind request credential key db).1.rows
    unfolding Methods.find_idempotent
    find_idempotent-Agrees writes db a = by_key key
      where
        by_key :
            (k : Option String)
            → Agrees c.node writes
                (Methods.find_idempotent c.env c.node kind request credential k db).1.rows
        by_key none = a
        by_key (some k) =
            let read =
              select-Agrees c.env c.node writes (find_key c.node credential (some k)) db a in
            bind_keeps (λ s. Agrees c.node writes s.rows)
              (select c.env (find_key c.node credential (some k))) _ db read λ row _. read

    -- An admission keeps the invariant, whether it returns or raises.
    pub admit-Inv : (p : Platform) → Inv c p → Inv c (admit c kind request credential key p).1
    unfolding admit
    admit-Inv p h = bind_keeps (Inv c) require_ledger _ p (rw require_ledger_same h) λ _ _.
        rw require_ledger_same (elim (Result-cases (command_for c.node kind request)) [
          | inr (x, e) ↦ rw e h
          | inl (command, e) ↦ rw e (elim (Bool-cases (not p.healthy)) [
            | inl unhealthy ↦ rw unhealthy h
            | inr healthy ↦ rw healthy (
                bind_keeps (Inv c) (on_ledger look) (admit_fresh c kind request credential key) p
                  looked λ existing _. admit_fresh-Inv existing (on_ledger look p).1 looked)
          ])
        ])
      where
        look : Effect Db (Option Operation)
        look = Methods.find_idempotent c.env c.node kind request credential key

        looked : Inv c (on_ledger look p).1
        looked =
            Inv-of_Kept p (on_ledger look p).1 h
              (on_ledger-Kept c look p h.agrees (find_idempotent-Agrees p.writes p.db h.agrees))

  -- A process that starts over a database and its history.
  pub boot-Inv : (p : Platform) → Inv c p → Inv c (boot p.db p.writes)
  boot-Inv p h = record { agrees = h.agrees; slot = tt }

  opening-Inv : (r : Result (Unit {0})) (q : Platform) → Inv c q → Inv c (opening r q).1
  opening-Inv (ok _) q h = record { agrees = h.agrees; slot = h.slot }
  opening-Inv (err e) q h = h

  open_ledger-Inv : (p : Platform) → Inv c p → Inv c (open_ledger c p).1
  unfolding open_ledger
  open_ledger-Inv p h =
      opening-Inv (select c.env (λ rows. tt) p.db).0
        (record p { db = (select c.env (λ rows. tt {0}) p.db).1 })
        (record {
          agrees = select-Agrees c.env c.node p.writes (λ rows. tt) p.db h.agrees;
          slot = h.slot;
        })

  abandon-Inv : (x : Result (Unit {0}) × Platform) → Inv c x.1 → Inv c (abandon x).1
  unfolding abandon
  abandon-Inv (ok _, p) h = h
  abandon-Inv (err e, p) h = record { agrees = h.agrees; slot = h.slot }

  pub start-Inv : (lock_free : Bool) (p : Platform) → Inv c p → Inv c (start c lock_free p).1
  unfolding start
  start-Inv false p h = h
  start-Inv true p h = abandon-Inv _ (
      bind_keeps (Inv c) (open_ledger c) (λ _. on_ledger (Methods.recover c.env c.node)) _
        opened_first
        λ _ _. Inv-of_Kept _ _ opened_first (
          on_ledger-Kept c (Methods.recover c.env c.node) _ opened_first.agrees
            (recover-Agrees c.env c.node _ _ opened_first.agrees)))
    where
      opened_first : Inv c (open_ledger c (record p { owner_held = true })).1
      opened_first =
          open_ledger-Inv (record p { owner_held = true })
            (record { agrees = h.agrees; slot = h.slot })
