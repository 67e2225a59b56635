-- ===== src/Service/Record/Stretches.antt =====
-- Each stretch of `execute` against `Traced`.
use asl3_api.Prelude.{
  String, true, false, not, ◌||◌, Option, none, some, All-append, [], ◌∷◌, ◌++◌, ◌≡◌, refl, sym,
  ◌∙◌, Bool-cases, inl, inr,
}
use asl3_api.Errors.{Result, ok, err, problem, Result-cases}
use asl3_api.Effects.{Effect}
use asl3_api.Models.{Operation, NodeState, EffectStatus}
use asl3_api.Models.Command.{command_for}
use asl3_api.Policy.{enforce}
use asl3_api.Ledger.{Env, Db, find}
use asl3_api.Ledger.Methods as Methods
use asl3_api.Ledger.Safety.{select_value}
use asl3_api.Ledger.Persistence.{SameRequest-refl}
use asl3_api.Ledger.Persistence.Methods.{get-Extends, start_dispatch-Extends}
use asl3_api.Service.{
  Stage, created, observing, dispatching, verifying, sleeping, Platform, Settings, on_ledger,
  require_ledger,
}
use asl3_api.Service.Execution.{
  finished, await, is_announce, is_satisfied, begin_with, begin, dispatch_allowed, after_status,
  after_snapshot, barrier, Event, run, snapshot, response, barrier_reached, raised, elapsed, resume,
}
use asl3_api.Service.Status.{effect_status}
use asl3_api.Service.Safety.Tasks.{require_ledger_same, on_ledger_ok, Called}
use asl3_api.Service.Record.{
  Permitted, Recorded, Known, StageOk, WritesOk, Sees, All-Recorded, Known-of_Extends,
  Permitted-of_SameRequest, Grown, Grown-refl, Traced, on_ledger-Grown, Traced-of_Grown,
  bind-Traced, save_and_return-Traced,
}
use asl3_api.Service.Record.Outcomes.{idle-Traced, after_response-Traced, after_sample-Traced}

get_value :
    (env : Env) (node id : String) (db : Db) {o : Option Operation} {db' : Db}
    → Methods.get env node id db ≡ (ok o, db')
    → o ≡ find node id db.rows
unfolding Methods.get
get_value env node id db e = select_value env (find node id) db e

module _ (c : Settings) (Seen : String → NodeState → Type 0) (id : String) (p : Platform)
    (h : WritesOk c Seen p) where
  begin_with-Traced :
      (q : Platform) (o : Option Operation)
      → Grown c Seen p q
      → ((a : Operation) → o ≡ some a → Known c Seen q.db.rows id a)
      → Traced c Seen id p (begin_with o q)
  unfolding begin_with
  begin_with-Traced q none k known = Traced-of_Grown c Seen id p h q (ok finished) k tt
  begin_with-Traced q (some o) k known =
      elim (Bool-cases (o.terminal || not (Methods.is_queued o.dispatch_status))) [
        | inl t ↦ rw t (Traced-of_Grown c Seen id p h q (ok finished) k tt)
        | inr f ↦ rw f (Traced-of_Grown c Seen id p h q (ok (await (observing o))) k (known o refl))
      ]

  begin-Traced : Traced c Seen id p (begin c id p)
  unfolding begin
  begin-Traced = elim (Bool-cases (p.closing || not p.healthy)) [
    | inl t ↦ rw t (save_and_return-Traced c Seen id p h _)
    | inr f ↦ rw f (
        bind-Traced c Seen id p h (on_ledger read) begin_with k
          λ o e. begin_with-Traced (on_ledger read p).1 o k (known o (on_ledger_ok read p _ e)))
  ]
    where
      read : Effect Db (Option Operation)
      read = Methods.get c.env c.node id

      k : Grown c Seen p (on_ledger read p).1
      k = on_ledger-Grown c Seen read p (get-Extends c.node c.env id p.db)

      known :
          (o : Option Operation)
          → Called read p o (on_ledger read p).1
          → (a : Operation) → o ≡ some a
          → Known c Seen (on_ledger read p).1.db.rows id a
      known o done a e =
          Known-of_Extends c Seen p.db.rows (on_ledger read p).1.db.rows k.extends id a (record {
            operation = a;
            found = sym (get_value c.env c.node id p.db done.ran) ∙ e;
            same = SameRequest-refl a;
          })

  module _ (o : Operation) (known : Known c Seen p.db.rows id o) where
    dispatch_allowed-Traced :
        (before : NodeState) (r : Result (Unit {0}))
        → Seen id before
        → enforce c.config o.kind before ≡ r
        → Traced c Seen id p (dispatch_allowed c id o before r p)
    unfolding dispatch_allowed
    dispatch_allowed-Traced before (ok _) seen allowed =
        elim (Result-cases (command_for c.node o.kind o.request)) [
          | inl (command, e) ↦ rw e (
              idle-Traced c Seen id p h (ok (await (dispatching o command false)))
                (known, record { built = e; before = before; seen = seen; allowed = allowed }))
          | inr (x, e) ↦ rw e (idle-Traced c Seen id p h (err x) tt)
        ]
    dispatch_allowed-Traced before (err (problem status code)) seen refused =
        save_and_return-Traced c Seen id p h _
    dispatch_allowed-Traced before (err e) seen refused = idle-Traced c Seen id p h (err e) tt

    after_status-Traced :
        (before : NodeState) (current : EffectStatus)
        → Seen id before
        → Traced c Seen id p (after_status c id o before current p)
    unfolding after_status
    after_status-Traced before current seen = elim (Bool-cases (is_satisfied current)) [
      | inl t ↦ rw t (save_and_return-Traced c Seen id p h _)
      | inr f ↦ rw f (dispatch_allowed-Traced before (enforce c.config o.kind before) seen refl)
    ]

    after_snapshot-Traced :
        (before : NodeState) → Seen id before → Traced c Seen id p (after_snapshot c id o before p)
    unfolding after_snapshot
    after_snapshot-Traced before seen = elim (Bool-cases (is_announce o.kind)) [
      | inl t ↦ rw t (dispatch_allowed-Traced before (enforce c.config o.kind before) seen refl)
      | inr f ↦ rw f (elim (Result-cases (effect_status o before)) [
        | inl (current, e) ↦ rw e (after_status-Traced before current seen)
        | inr (x, e) ↦ rw e (idle-Traced c Seen id p h (err x) tt)
      ])
    ]

    -- The barrier adds the write of the task's own command.
    barrier-Traced :
        (command : String)
        → Permitted c Seen id o command
        → Traced c Seen id p (barrier c id o command p)
    unfolding barrier
    barrier-Traced command allowed =
        bind-Traced c Seen id p h require_ledger _ (rw require_ledger_same (Grown-refl c Seen p))
          λ _ _. rw require_ledger_same (
            bind-Traced c Seen id p h (on_ledger begun) _ k λ op e. crossed (on_ledger begun p).1 k)
      where
        begun : Effect Db Operation
        begun = Methods.start_dispatch c.env c.node id

        k : Grown c Seen p (on_ledger begun p).1
        k = on_ledger-Grown c Seen begun p (start_dispatch-Extends c.node c.env id p.db)

        crossed :
            (q : Platform)
            → Grown c Seen p q
            → Traced c Seen id p (
              ok (await (dispatching o command true)),
              record q { writes = q.writes ++ (id, command) ∷ [] },
            )
        crossed q g =
            let now = Known-of_Extends c Seen p.db.rows q.db.rows g.extends id o known in
            record {
              extends = g.extends;
              same_tasks = g.same_tasks;
              same_hold = g.same_hold;
              writes =
                  All-append (Recorded c Seen q.db.rows) q.writes ((id, command) ∷ [])
                    (rw g.same_writes
                      (All-Recorded c Seen p.db.rows q.db.rows g.extends p.writes h))
                    (
                      record {
                        operation = now.operation;
                        found = now.found;
                        permitted =
                            Permitted-of_SameRequest c Seen id o now.operation command now.same
                              allowed;
                      },
                      tt,
                    );
              stage = (now, allowed);
            }

  pub resume-Traced :
      (stage : Stage) (event : Event)
      → StageOk c Seen p.db.rows id stage
      → Sees c Seen id event
      → Traced c Seen id p (resume c id stage event p)
  unfolding resume
  resume-Traced created run s g = begin-Traced
  resume-Traced created _ s g = idle-Traced c Seen id p h _ tt
  resume-Traced (observing o) (snapshot t time) s g = after_snapshot-Traced o s t (g t time refl)
  resume-Traced (observing o) (raised e) s g = idle-Traced c Seen id p h _ tt
  resume-Traced (observing o) _ s g = idle-Traced c Seen id p h _ s
  resume-Traced (dispatching o command started) barrier_reached s g =
      barrier-Traced o s.0 command s.1
  resume-Traced (dispatching o command started) (response m time) s g =
      after_response-Traced c Seen id p h o command started m time
  resume-Traced (dispatching o command started) (raised e) s g = idle-Traced c Seen id p h _ tt
  resume-Traced (dispatching o command started) _ s g = idle-Traced c Seen id p h _ s
  resume-Traced (verifying o deadline) (snapshot t time) s g =
      elim (Result-cases (effect_status o t)) [
        | inl (effect, e) ↦ rw e (after_sample-Traced c Seen id p h o deadline time t effect)
        | inr (x, e) ↦ rw e (idle-Traced c Seen id p h (err x) tt)
      ]
  resume-Traced (verifying o deadline) (raised e) s g = idle-Traced c Seen id p h _ tt
  resume-Traced (verifying o deadline) _ s g = idle-Traced c Seen id p h _ tt
  resume-Traced (sleeping o deadline) elapsed s g = idle-Traced c Seen id p h _ tt
  resume-Traced (sleeping o deadline) (raised e) s g = idle-Traced c Seen id p h _ tt
  resume-Traced (sleeping o deadline) _ s g = idle-Traced c Seen id p h _ tt
