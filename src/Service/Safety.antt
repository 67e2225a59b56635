-- ===== src/Service/Safety.antt =====
-- What every stretch of `execute` keeps: the agreement of the table with the history of control
-- writes, the task list and the control slot.
pub mod Stretches
pub mod Tasks
pub mod Invariant
pub mod Entries
use asl3_api.Prelude.{
  String, Bool, true, false, not, ◌||◌, Option, none, some, List, [], ◌∷◌, ◌≡◌, refl, arith, ◌∙◌,
}
use asl3_api.Errors.{Result, ok, err, sqlite_error}
use asl3_api.Effects.{Effect, pure, proceed, ◌>>=◌}
use asl3_api.Models.{Operation}
use asl3_api.Ledger.{Db, Changes}
use asl3_api.Ledger.Methods as Methods
use asl3_api.Ledger.History.{Writes, is_written, changes_fit, Agrees}
use asl3_api.Ledger.Safety.{update-Agrees}
use asl3_api.Service.{
  Stage, has_started, Worker, Connection, absent, opened, closed, Platform, Settings, call_ledger,
  on_ledger, absorb, save,
}
use asl3_api.Service.Execution.{Next, finished, await, save_and_return}

-- The flag `started` after a stretch; a task that has returned needs none.
abbrev pub next_started : Bool → Result Next → Bool
next_started started (ok finished) = true
next_started started (ok (await stage)) = has_started stage
next_started started (err e) = started

-- The history, the tasks and the slot are those of `p`, and the table still agrees.
pub record Kept (c : Settings) (p q : Platform) : Type 0 where
  pub same_writes : q.writes ≡ p.writes
  pub same_tasks : q.tasks ≡ p.tasks
  pub same_busy : q.busy_operation_id ≡ p.busy_operation_id
  pub agrees : Agrees c.node q.writes q.db.rows

-- What a stretch of the task of `id` leaves behind.
pub record Post (c : Settings) (id : String) (started : Bool) (p : Platform)
    (x : Result Next × Platform) : Type 0 where
  pub same_tasks : x.1.tasks ≡ p.tasks
  pub same_busy : x.1.busy_operation_id ≡ p.busy_operation_id
  pub agrees : Agrees c.node x.1.writes x.1.db.rows
  pub unwritten : next_started started x.0 ≡ false → is_written id x.1.writes ≡ false

module _ (c : Settings) where
  pub call_ledger-Kept :
      {A : Type 0} (connection : Connection) (m : Effect Db A) (p : Platform)
      → Agrees c.node p.writes p.db.rows
      → Agrees c.node p.writes (m p.db).1.rows
      → Kept c p (call_ledger connection m p).1
  unfolding call_ledger
  call_ledger-Kept absent m p a b = record {
    same_writes = refl;
    same_tasks = refl;
    same_busy = refl;
    agrees = a;
  }
  call_ledger-Kept opened m p a b = record {
    same_writes = refl;
    same_tasks = refl;
    same_busy = refl;
    agrees = b;
  }
  call_ledger-Kept closed m p a b = record {
    same_writes = refl;
    same_tasks = refl;
    same_busy = refl;
    agrees = a;
  }

  pub on_ledger-Kept :
      {A : Type 0} (m : Effect Db A) (p : Platform)
      → Agrees c.node p.writes p.db.rows
      → Agrees c.node p.writes (m p.db).1.rows
      → Kept c p (on_ledger m p).1
  unfolding on_ledger
  on_ledger-Kept m p a b = call_ledger-Kept p.ledger m p a b

  absorb-Kept : (r : Result Operation) (p q : Platform) → Kept c p q → Kept c p (absorb r q).1
  unfolding absorb
  absorb-Kept (ok o) p q k = k
  absorb-Kept (err sqlite_error) p q k = record {
    same_writes = k.same_writes;
    same_tasks = k.same_tasks;
    same_busy = k.same_busy;
    agrees = k.agrees;
  }
  absorb-Kept (err e) p q k = k

  pub save-Kept :
      (id : String) (changes : Changes) (p : Platform)
      → Agrees c.node p.writes p.db.rows
      → changes_fit (is_written id p.writes) changes.dispatch_status ≡ true
      → Kept c p (save c id changes p).1
  unfolding save
  save-Kept id changes p a f = absorb-Kept _ p _ (
      on_ledger-Kept (Methods.update c.env c.node id changes) p a
        (update-Agrees c.env c.node p.writes id changes p.db a f))

  module _ (id : String) (started : Bool) where
    pub Post-of_Kept :
        (p q : Platform) (r : Result Next)
        → Kept c p q
        → (next_started started r ≡ false → is_written id p.writes ≡ false)
        → Post c id started p (r, q)
    Post-of_Kept p q r k u = record {
      same_tasks = k.same_tasks;
      same_busy = k.same_busy;
      agrees = k.agrees;
      unwritten = λ h. ground (arith, u h, k.same_writes);
    }

    pub Post-trans :
        (p q : Platform) (x : Result Next × Platform)
        → Kept c p q
        → Post c id started q x
        → Post c id started p x
    Post-trans p q x k h = record {
      same_tasks = h.same_tasks ∙ k.same_tasks;
      same_busy = h.same_busy ∙ k.same_busy;
      agrees = h.agrees;
      unwritten = h.unwritten;
    }

    pub save_and_return-Post :
        (changes : Changes) (p : Platform)
        → Agrees c.node p.writes p.db.rows
        → (started ≡ false → is_written id p.writes ≡ false)
        → changes_fit (is_written id p.writes) changes.dispatch_status ≡ true
        → Post c id started p (save_and_return c id changes p)
    save_and_return-Post changes p a u f =
        returned (save c id changes p).0 (save-Kept id changes p a f)
      where
        returned :
            (r : Result (Option Operation))
            → Kept c p (save c id changes p).1
            → Post c id started p (proceed r (λ _. pure finished) (save c id changes p).1)
        returned (ok o) k = Post-of_Kept p (save c id changes p).1 (ok finished) k (λ h. cc)
        returned (err e) k = Post-of_Kept p (save c id changes p).1 (err e) k u

    -- A part that keeps all, and what follows it.
    pub bind-Post :
        {A : Type 0} (p : Platform) (m : Effect Platform A) (f : A → Effect Platform Next)
        → Kept c p (m p).1
        → (started ≡ false → is_written id p.writes ≡ false)
        → ((a : A) → m p ≡ (ok a, (m p).1) → Post c id started p (f a (m p).1))
        → Post c id started p ((m >>= f) p)
    bind-Post {A} p m f k u later = after (m p).0 refl
      where
        after : (r : Result A) → (m p).0 ≡ r → Post c id started p (proceed r f (m p).1)
        after (ok a) e = later a (λ i. (e i, (m p).1))
        after (err x) e = Post-of_Kept p (m p).1 (err x) k u
