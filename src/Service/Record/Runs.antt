-- ===== src/Service/Record/Runs.antt =====
-- What is on record at a platform, and that a resumed task leaves all on record.
use asl3_api.Prelude.{
  String, Bool, Option, none, some, List, [], ◌∷◌, All, All-map, str_eq, eq_iff, ◌≡◌, refl, sym,
  subst, Bool-cases, inl, inr, arith,
}
use asl3_api.Errors.{Result, ok, err}
use asl3_api.Models.{NodeState}
use asl3_api.Ledger.{Changes}
use asl3_api.Ledger.Persistence.{Extends, Extends-refl, Extends-trans}
use asl3_api.Service.{Stage, created, has_started, Worker, Platform, Settings, save}
use asl3_api.Service.Execution.{
  Next, finished, await, Event, cancel, resume, release, failure, cancellation, settle, step_task,
  take_task, add_task, step_found, advance,
}
use asl3_api.Service.Record.{
  Sees, StageOk, WritesOk, StageOk-of_Extends, WritesOk-of_Grown, Grown, Traced, save-Grown,
}
use asl3_api.Service.Record.Stretches.{resume-Traced}

module _ (c : Settings) (Seen : String → NodeState → Type 0) where
  abbrev pub TasksOk : Platform → List Worker → Type 0
  TasksOk p ts = All (λ w. StageOk c Seen p.db.rows w.id w.stage) ts

  -- All is on record at `q`, whose table extends that of `p`.
  pub record OnRecord (p q : Platform) : Type 0 where
    pub extends : Extends c.node p.db.rows q.db.rows
    pub writes : WritesOk c Seen q
    pub tasks : TasksOk q q.tasks

  TasksOk-of_Extends :
      (p q : Platform) (ts : List Worker)
      → Extends c.node p.db.rows q.db.rows
      → TasksOk p ts
      → TasksOk q ts
  TasksOk-of_Extends p q ts x h =
      All-map (λ w. StageOk-of_Extends c Seen p.db.rows q.db.rows x w.id w.stage) ts h

  pub OnRecord-trans : (p q r : Platform) → OnRecord p q → OnRecord q r → OnRecord p r
  OnRecord-trans p q r h k = record {
    extends = Extends-trans c.node p.db.rows q.db.rows r.db.rows h.extends k.extends;
    writes = k.writes;
    tasks = k.tasks;
  }

  pub OnRecord-of_Grown :
      (p q : Platform) → WritesOk c Seen p → TasksOk p p.tasks → Grown c Seen p q → OnRecord p q
  OnRecord-of_Grown p q h t k = record {
    extends = k.extends;
    writes = WritesOk-of_Grown c Seen p q k h;
    tasks = rw k.same_tasks (TasksOk-of_Extends p q p.tasks k.extends t);
  }

  module _ (id : String) (p : Platform) (h : WritesOk c Seen p) (t : TasksOk p p.tasks) where
    saved-OnRecord : (changes : Changes) → OnRecord p (release c id (save c id changes p).1)
    saved-OnRecord changes =
        let k = OnRecord-of_Grown p (save c id changes p).1 h t (save-Grown c Seen id changes p) in
        record { extends = k.extends; writes = k.writes; tasks = k.tasks }

  module _ (id : String) (p : Platform) (h : WritesOk c Seen p) (t : TasksOk p p.tasks) where
    tasks_kept : (x : Result Next × Platform) → Traced c Seen id p x → TasksOk x.1 x.1.tasks
    tasks_kept x k =
        subst (TasksOk x.1) (sym k.same_tasks) (TasksOk-of_Extends p x.1 p.tasks k.extends t)

    settle-OnRecord :
        (started : Bool) (x : Result Next × Platform)
        → Traced c Seen id p x
        → OnRecord p (settle c id started x)
    unfolding settle
    settle-OnRecord started (ok finished, q) k = record {
      extends = k.extends;
      writes = k.writes;
      tasks = tasks_kept (ok finished, q) k;
    }
    settle-OnRecord started (ok (await stage), q) k = record {
      extends = k.extends;
      writes = k.writes;
      tasks = (k.stage, tasks_kept (ok (await stage), q) k);
    }
    settle-OnRecord started (err e, q) k =
        OnRecord-trans p q _
          (record { extends = k.extends; writes = k.writes; tasks = tasks_kept (err e, q) k })
          (saved-OnRecord id q k.writes (tasks_kept (err e, q) k) (failure c id started))

    -- A resumed task leaves all on record, whatever happens to it.
    step_task-OnRecord :
        (stage : Stage) (event : Event)
        → StageOk c Seen p.db.rows id stage
        → Sees c Seen id event
        → OnRecord p (step_task c id stage event p)
    unfolding step_task
    step_task-OnRecord created cancel s g = record {
      extends = Extends-refl c.node p.db.rows;
      writes = h;
      tasks = t;
    }
    step_task-OnRecord stage cancel s g =
        saved-OnRecord id p h t (cancellation c id (has_started stage))
    step_task-OnRecord stage event s g =
        settle-OnRecord (has_started stage) (resume c id stage event p)
          (resume-Traced c Seen id p h stage event s g)

  -- A task that is taken was in the list, and so were the others.
  pub take_task-All :
      (P : Worker → Type 0) (id : String) (ts : List Worker) {stage : Stage} {rest : List Worker}
      → take_task id ts ≡ some (stage, rest)
      → All P ts
      → P (record { id = id; stage = stage }) × All P rest
  unfolding take_task
  take_task-All P id [] e h = absurd (ground arith)
  take_task-All P id (w ∷ ts) {stage} {rest} e h = elim (Bool-cases (str_eq w.id id)) [
    | inl hit ↦
        let here : w ≡ record { id = id; stage = stage } = ground (arith, eq_iff w.id id) in
        let others : ts ≡ rest = ground arith in (subst P here h.0, subst (All P) others h.1)
    | inr miss ↦ later (λ s r' f. take_task-All P id ts f h.1) (take_task id ts) refl (ground arith)
  ]
    where
      later :
          ((s : Stage) (others : List Worker)
            → take_task id ts ≡ some (s, others)
            → P (record { id = id; stage = s }) × All P others)
          → (r : Option (Stage × List Worker)) → take_task id ts ≡ r
          → add_task w r ≡ some (stage, rest)
          → P (record { id = id; stage = stage }) × All P rest
      later again none same f = absurd (ground arith)
      later again (some (s, others)) same f =
          let (found, kept) = again s others same in
          let now : s ≡ stage = ground arith in
          let all_now : w ∷ others ≡ rest = ground arith in
          (
            subst (λ x. P (record { id = id; stage = x })) now found,
            subst (All P) all_now (h.0, kept),
          )

  pub advance-OnRecord :
      (id : String) (event : Event) (p : Platform)
      → WritesOk c Seen p
      → TasksOk p p.tasks
      → Sees c Seen id event
      → OnRecord p (advance c id event p)
  unfolding advance
  advance-OnRecord id event p h t g = go (take_task id p.tasks) refl
    where
      go :
          (r : Option (Stage × List Worker))
          → take_task id p.tasks ≡ r
          → OnRecord p (step_found c id event p r)
      go none e = record { extends = Extends-refl c.node p.db.rows; writes = h; tasks = t }
      go (some (stage, rest)) e =
          let (s, others) =
            take_task-All (λ w. StageOk c Seen p.db.rows w.id w.stage) id p.tasks e t in
          let k = step_task-OnRecord id (record p { tasks = rest }) h others stage event s g in
          record { extends = k.extends; writes = k.writes; tasks = k.tasks }
