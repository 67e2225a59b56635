-- ===== src/Service/Reach/Verified.antt =====
-- The loop of `verify_effect` ends.
use asl3_api.Prelude.{
  ℕ, suc, ◌+◌, ◌-◌, ◌*◌, ◌≤◌, ◌<◌, String, true, Option, none, some, List, [], ◌∷◌, length, leb,
  ltb, eq_refl, if◌then◌else◌, ◌≡◌, refl, sym, ap, subst, ◌∙◌, inl, inr, Bool-cases, arith,
}
use asl3_api.Errors.{Result, ok, err, Result-cases}
use asl3_api.Effects.{pure, proceed}
use asl3_api.Models.{Operation, NodeState, EffectStatus}
use asl3_api.Ledger.{Changes}
use asl3_api.Service.{Stage, verifying, sleeping, Platform, Settings, save}
use asl3_api.Service.Execution.{
  finished, is_satisfied, save_and_return, after_sample, Event, snapshot, raised, elapsed, resume,
  release, failure, settle, step_task, take_task, advance,
}
use asl3_api.Service.Status.{effect_status}
use asl3_api.Service.Record.{Anything, Grown, save-Grown}

-- What `observer.snapshot()` gave, and the loop's time then.
abbrev pub Sample : Type 0
Sample = Result NodeState × ℕ

abbrev pub event_of : Sample → Event
event_of (ok state, time) = snapshot state time
event_of (err e, time) = raised e

-- The rounds of the loop: each takes a sample, and sleeps if the loop goes on.
unfoldable pub rounds : Settings → String → List Sample → Platform → Platform
rounds c id [] p = p
rounds c id (s ∷ rest) p = rounds c id rest (advance c id elapsed (advance c id (event_of s) p))

-- `min(0.5, max(0, deadline - current_time))`, where `half` is half a second in the unit of time.
abbrev pub pause : (half deadline current_time : ℕ) → ℕ
pause half deadline current_time =
    if leb half (deadline - current_time) then half else deadline - current_time

-- Each sample is taken when the sleep before it is over, or later; the first from `ready` on.
abbrev pub TakenFrom : (half deadline ready : ℕ) → List Sample → Type 0
TakenFrom half deadline ready [] = Unit
TakenFrom half deadline ready (s ∷ rest) =
    (ready ≤ s.1) × TakenFrom half deadline (s.1 + pause half deadline s.1) rest

-- No task is left, and the control slot is free.
abbrev pub Ended : Platform → Type 0
Ended p = (p.tasks ≡ []) × (p.busy_operation_id ≡ none)

-- The one task is that of the slot, at this stage.
abbrev pub WaitsAt : String → Stage → Platform → Type 0
WaitsAt id stage p =
    (p.tasks ≡ record { id = id; stage = stage } ∷ []) × (p.busy_operation_id ≡ some id)

module _ (c : Settings) (id : String) where
  release-Ended :
      (p : Platform) → p.tasks ≡ [] → p.busy_operation_id ≡ some id → Ended (release c id p)
  release-Ended p t b = (t, rw (b, eq_refl id) refl)

  save-Ended :
      (changes : Changes) (p : Platform)
      → p.tasks ≡ []
      → p.busy_operation_id ≡ some id
      → Ended (release c id (save c id changes p).1)
  save-Ended changes p t b =
      let k = save-Grown c Anything id changes p in
      release-Ended (save c id changes p).1 (k.same_tasks ∙ t) (k.same_busy ∙ b)

  -- `save` and `return`, with the handler of an error that `save` lets through.
  save_and_return-Ended :
      (changes : Changes) (p : Platform)
      → p.tasks ≡ []
      → p.busy_operation_id ≡ some id
      → Ended (settle c id true (save_and_return c id changes p))
  unfolding settle
  save_and_return-Ended changes p t b = go (save c id changes p).0
    where
      k : Grown c Anything p (save c id changes p).1
      k = save-Grown c Anything id changes p

      go :
          (r : Result (Option Operation))
          → Ended (settle c id true (proceed r (λ _. pure finished) (save c id changes p).1))
      go (ok o) = save-Ended changes p t b
      go (err e) =
          save-Ended (failure c id true) (save c id changes p).1 (k.same_tasks ∙ t)
            (k.same_busy ∙ b)

  -- A sample ends the task, or leaves it asleep before the deadline.
  data Sampled (o : Operation) (deadline time : ℕ) (q : Platform) : Type 0 where
    over : Ended q → Sampled o deadline time q
    goes_on :
        ltb time deadline ≡ true → WaitsAt id (sleeping o deadline) q → Sampled o deadline time q

  after_sample-Sampled :
      (o : Operation) (deadline time : ℕ) (state : NodeState) (effect : EffectStatus) (p : Platform)
      → p.tasks ≡ []
      → p.busy_operation_id ≡ some id
      → Sampled o deadline time
          (settle c id true (after_sample c id o deadline state time effect p))
  unfolding after_sample
  after_sample-Sampled o deadline time state effect p t b =
      elim (Bool-cases (is_satisfied effect)) [
        | inl done ↦ rw done (over (save_and_return-Ended _ p t b))
        | inr not_yet ↦ rw not_yet (elim (Bool-cases (leb deadline time)) [
          | inl late ↦ rw late (over (save_and_return-Ended _ p t b))
          | inr early ↦ rw early (
              goes_on (ground arith) (
                unfold settle in
                (ap (λ ts. record { id = id; stage = sleeping o deadline } ∷ ts) t, b)))
        ])
      ]

  sample-Sampled :
      (o : Operation) (deadline : ℕ) (s : Sample) (p : Platform)
      → p.tasks ≡ []
      → p.busy_operation_id ≡ some id
      → Sampled o deadline s.1 (step_task c id (verifying o deadline) (event_of s) p)
  unfolding step_task resume
  sample-Sampled o deadline (ok state, time) p t b = elim (Result-cases (effect_status o state)) [
    | inl (effect, e) ↦ rw e (after_sample-Sampled o deadline time state effect p t b)
    | inr (x, e) ↦ rw e (unfold settle in over (save-Ended (failure c id true) p t b))
  ]
  sample-Sampled o deadline (err x, time) p t b =
      unfold settle in over (save-Ended (failure c id true) p t b)

  -- The event loop finds the one task.
  advance_waiting :
      (stage : Stage) (event : Event) (p : Platform)
      → WaitsAt id stage p
      → advance c id event p ≡ step_task c id stage event (record p { tasks = [] })
  unfolding advance take_task
  advance_waiting stage event p w = rw (w.0, eq_refl id) refl

  advance_idle : (event : Event) (p : Platform) → Ended p → advance c id event p ≡ p
  unfolding advance take_task
  advance_idle event p h = rw h.0 refl

  rounds_idle : (samples : List Sample) (p : Platform) → Ended p → Ended (rounds c id samples p)
  unfolding rounds
  rounds_idle [] p h = h
  rounds_idle (s ∷ rest) p h =
      subst (λ q. Ended (rounds c id rest q))
        (sym (ap (advance c id elapsed) (advance_idle (event_of s) p h) ∙ advance_idle elapsed p h))
        (rounds_idle rest p h)

  elapsed-WaitsAt :
      (o : Operation) (deadline : ℕ) (p : Platform)
      → WaitsAt id (sleeping o deadline) p
      → WaitsAt id (verifying o deadline) (advance c id elapsed p)
  unfolding step_task resume settle
  elapsed-WaitsAt o deadline p w =
      rw (advance_waiting (sleeping o deadline) elapsed p w) (refl, w.1)

  -- A round after which the loop goes on only before the deadline.
  round-Ended :
      (o : Operation) (deadline : ℕ) (s : Sample) (rest : List Sample) (p : Platform)
      → WaitsAt id (verifying o deadline) p
      → (s.1 < deadline
          → (q : Platform) → WaitsAt id (verifying o deadline) q
          → Ended (rounds c id rest q))
      → Ended (rounds c id (s ∷ rest) p)
  unfolding rounds
  round-Ended o deadline s rest p w go_on = ended_by (
      subst (Sampled o deadline s.1) (sym (advance_waiting (verifying o deadline) (event_of s) p w))
        (sample-Sampled o deadline s (record p { tasks = [] }) refl w.1))
    where
      ended_by :
          Sampled o deadline s.1 (advance c id (event_of s) p)
          → Ended (rounds c id rest (advance c id elapsed (advance c id (event_of s) p)))
      ended_by (over h) =
          rounds_idle rest _
            (subst Ended (sym (advance_idle elapsed (advance c id (event_of s) p) h)) h)
      ended_by (goes_on before h) = go_on (ground arith) _ (elapsed-WaitsAt o deadline _ h)

  -- The task of `verify_effect` ends, and frees the control slot, whatever its samples show and
  -- whether the ledger works: the samples that begin in the timeout are enough, one at first and one
  -- for each half second.
  pub rounds-Ended :
      (o : Operation) (half deadline ready : ℕ) (s : Sample) (rest : List Sample) (p : Platform)
      → WaitsAt id (verifying o deadline) p
      → TakenFrom half deadline ready (s ∷ rest)
      → deadline ≤ ready + length rest * half
      → Ended (rounds c id (s ∷ rest) p)
  rounds-Ended o half deadline ready s [] p w taken enough =
      round-Ended o deadline s [] p w
        λ before q waits. absurd (omega (arith, taken.0, enough, before))
  rounds-Ended o half deadline ready s (s' ∷ rest) p w taken enough =
      round-Ended o deadline s (s' ∷ rest) p w λ before q waits.
        rounds-Ended o half deadline (s.1 + pause half deadline s.1) s' rest q waits taken.1
          (pause_enough (length rest) enough)
    where
      pause_enough :
          (n : ℕ)
          → deadline ≤ ready + suc n * half
          → deadline ≤ (s.1 + pause half deadline s.1) + n * half
      pause_enough n h = ground (arith, taken.0)
