-- ===== src/Service/Safety/Invariant.antt =====
-- The invariant of a running platform, and that each entry point keeps it.
use asl3_api.Prelude.{
  String, Bool, true, false, Option, none, some, List, [], ◌∷◌, str_eq, eq_iff, ◌≡◌, refl, arith,
  sym, subst, Bool-cases, inl, inr, ap, ◌∙◌,
}
use asl3_api.Errors.{Result, ok, err}
use asl3_api.Models.{DispatchStatus}
use asl3_api.Ledger.{Changes}
use asl3_api.Ledger.History.{Writes, is_written, changes_fit, Agrees}
use asl3_api.Service.{Stage, created, has_started, Worker, Platform, Settings, save}
use asl3_api.Service.Execution.{
  Next, finished, await, Event, cancel, resume, release, failure, cancellation, settle, step_task,
  take_task, step_found, advance, Event,
}
use asl3_api.Service.Safety.{Kept, Post, save-Kept}
use asl3_api.Service.Safety.Tasks.{resume-Post}

-- At most one task, and it holds the control slot. Before its barrier nothing has been written for it.
abbrev pub SlotOk : List Worker → Option String → Writes → Type 0
SlotOk [] busy writes = Unit
SlotOk (w ∷ []) busy writes =
    (busy ≡ some w.id) × (has_started w.stage ≡ false → is_written w.id writes ≡ false)
SlotOk (_ ∷ _ ∷ _) busy writes = ⊥

pub record Inv (c : Settings) (p : Platform) : Type 0 where
  pub agrees : Agrees c.node p.writes p.db.rows
  pub slot : SlotOk p.tasks p.busy_operation_id p.writes

unwritten_fits : (o : Option DispatchStatus) → changes_fit false o ≡ true
unwritten_fits none = refl
unwritten_fits (some s) = refl

module _ (c : Settings) (id : String) where
  release-Inv :
      (p : Platform) → Agrees c.node p.writes p.db.rows → p.tasks ≡ [] → Inv c (release c id p)
  release-Inv p a t = record { agrees = a; slot = rw t tt }

  save-release-Inv :
      (changes : Bool → Changes) (started : Bool) (p : Platform)
      → changes_fit true (changes true).dispatch_status ≡ true
      → Agrees c.node p.writes p.db.rows
      → p.tasks ≡ []
      → (started ≡ false → is_written id p.writes ≡ false)
      → Inv c (release c id (save c id (changes started) p).1)
  save-release-Inv changes started p f a t u =
      let k : Kept c p (save c id (changes started) p).1 =
        save-Kept c id (changes started) p a (fit started (is_written id p.writes) u) in
      release-Inv (save c id (changes started) p).1 k.agrees (k.same_tasks ∙ t)
    where
      fit :
          (s w : Bool) → (s ≡ false → w ≡ false) → changes_fit w (changes s).dispatch_status ≡ true
      fit true true v = f
      fit true false v = unwritten_fits (changes true).dispatch_status
      fit false w v = rw (v refl) (unwritten_fits (changes false).dispatch_status)

  settle-Inv :
      (started : Bool) (p : Platform) (x : Result Next × Platform)
      → p.tasks ≡ []
      → p.busy_operation_id ≡ some id
      → Post c id started p x
      → Inv c (settle c id started x)
  unfolding settle
  settle-Inv started p (ok finished, q) t b h = release-Inv q h.agrees (h.same_tasks ∙ t)
  settle-Inv started p (ok (await stage), q) t b h = record {
    agrees = h.agrees;
    slot = rw (h.same_tasks, t) (h.same_busy ∙ b, h.unwritten);
  }
  settle-Inv started p (err e, q) t b h =
      save-release-Inv (failure c id) started q (ground arith) h.agrees (h.same_tasks ∙ t)
        h.unwritten

  module _ (p : Platform) (t : p.tasks ≡ []) (b : p.busy_operation_id ≡ some id) where
    -- A resumed task keeps the invariant, whatever happens to it.
    step_task-Inv :
        (stage : Stage) (event : Event)
        → Agrees c.node p.writes p.db.rows
        → (has_started stage ≡ false → is_written id p.writes ≡ false)
        → Inv c (step_task c id stage event p)
    unfolding step_task
    step_task-Inv created cancel a u = record { agrees = a; slot = rw t tt }
    step_task-Inv stage cancel a u =
        save-release-Inv (cancellation c id) (has_started stage) p (ground arith) a t u
    step_task-Inv stage event a u =
        settle-Inv (has_started stage) p (resume c id stage event p) t b
          (resume-Post c id p a stage event u)

take_task-nil : (id : String) → take_task id [] ≡ none
unfolding take_task
take_task-nil id = refl

take_task-none : (id : String) (w : Worker) → str_eq w.id id ≡ false → take_task id (w ∷ []) ≡ none
unfolding take_task
take_task-none id w e = rw e refl

take_task-some :
    (id : String) (w : Worker) → str_eq w.id id ≡ true → take_task id (w ∷ []) ≡ some (w.stage, [])
unfolding take_task
take_task-some id w e = rw e refl

-- Whatever event reaches whichever task, the invariant is kept.
pub advance-Inv :
    (c : Settings) (id : String) (event : Event) (p : Platform)
    → Inv c p
    → Inv c (advance c id event p)
unfolding advance
advance-Inv c id event p h = go p.tasks refl h.slot
  where
    at :
        (r : Option (Stage × List Worker))
        → take_task id p.tasks ≡ r
        → Inv c (step_found c id event p r)
        → Inv c (step_found c id event p (take_task id p.tasks))
    at r e x = subst (λ q. Inv c (step_found c id event p q)) (sym e) x

    go :
        (ts : List Worker)
        → p.tasks ≡ ts
        → SlotOk ts p.busy_operation_id p.writes
        → Inv c (step_found c id event p (take_task id p.tasks))
    go [] e s = at none (ap (take_task id) e ∙ take_task-nil id) h
    go (w ∷ []) e s = elim (Bool-cases (str_eq w.id id)) [
      | inl same ↦
          let here : w.id ≡ id = (eq_iff w.id id).0 same in
          at (some (w.stage, [])) (ap (take_task id) e ∙ take_task-some id w same) (
            step_task-Inv c id (record p { tasks = [] }) refl (s.0 ∙ ap some here) w.stage event
              h.agrees (λ n. subst (λ j. is_written j p.writes ≡ false) here (s.1 n)))
      | inr other ↦ at none (ap (take_task id) e ∙ take_task-none id w other) h
    ]
    go (_ ∷ _ ∷ _) e s = absurd s
