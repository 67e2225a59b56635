-- ===== src/Service/Execution.antt =====
-- `Platform.execute` and `Platform.verify_effect` of vnext/service.py, from one `await` to the next.
use asl3_api.Prelude.{
  ℕ, ◌+◌, String, Bool, true, false, not, ◌||◌, Option, none, some, List, [], ◌∷◌, ◌++◌, get,
  str_eq, leb, if◌then◌else◌,
}
use asl3_api.Errors.{Exception, problem, protocol_error, Result, ok, err}
use asl3_api.Effects.{Effect, pure, raise, lift, modify, ◌>>=◌, ◌>>◌, require}
use asl3_api.Models.{
  Kind, announce, NodeState, Operation, DispatchStatus, acknowledged, rejected, not_dispatched,
  outcome_unknown, EffectStatus, not_attempted, observed_satisfied,
}
use asl3_api.Models.Command.{command_for}
use asl3_api.Policy.{enforce}
use asl3_api.Transport.{Message, field_is, command_rejected}
use asl3_api.Ledger.{Changes, no_changes}
use asl3_api.Ledger.Methods as Methods
use asl3_api.Ledger.Methods.{is_queued}
use asl3_api.Service.{
  Stage, created, observing, dispatching, verifying, sleeping, has_started, Worker, Platform,
  Settings, on_ledger, require_ledger, save,
}
use asl3_api.Service.Status.{effect_status}

-- How a stretch of the coroutine ends: by `return`, or at the next `await`.
pub data Next : Type 0 where
  finished : Next
  await : Stage → Next

-- `terminal=True` with both statuses and an error code.
abbrev pub ending : DispatchStatus → EffectStatus → String → Changes
ending dispatch effect semantic_error = record {
  dispatch_status = some dispatch;
  effect_status = some effect;
  terminal = some true;
  semantic_error = some semantic_error;
  evidence = none;
}

abbrev pub is_announce : Kind → Bool
is_announce announce = true
is_announce _ = false

abbrev pub is_satisfied : EffectStatus → Bool
is_satisfied observed_satisfied = true
is_satisfied _ = false

abbrev pub is_unknown : EffectStatus → Bool
is_unknown EffectStatus.unknown = true
is_unknown _ = false

-- `save(…)` followed by `return`.
abbrev pub save_and_return : Settings → String → Changes → Effect Platform Next
save_and_return c id changes = save c id changes >>= λ _. pure finished

-- `operation is None or operation.terminal or operation.dispatch_status != "QUEUED"`
unfoldable pub begin_with : Option Operation → Effect Platform Next
begin_with none = pure finished
begin_with (some o) =
    if o.terminal || not (is_queued o.dispatch_status)
    then pure finished
    else pure (await (observing o))

module _ (c : Settings) (id : String) where
  unfoldable pub begin : Effect Platform Next
  begin p =
      if p.closing || not p.healthy
      then save_and_return c id (ending not_dispatched not_attempted "CONTROL_UNAVAILABLE") p
      else (on_ledger (Methods.get c.env c.node id) >>= begin_with) p

  -- The `try` around `policy.enforce`, and `command_for` behind it.
  unfoldable pub dispatch_allowed : Operation → NodeState → Result (Unit {0}) → Effect Platform Next
  dispatch_allowed operation before (ok _) = do
    command ← lift (command_for c.node operation.kind operation.request)
    pure (await (dispatching operation command false))
  dispatch_allowed operation before (err (problem status code)) = save_and_return c id (record {
    dispatch_status = some not_dispatched;
    effect_status = some not_attempted;
    terminal = some true;
    semantic_error = some code;
    evidence = some before;
  })
  dispatch_allowed operation before (err e) = raise e

  unfoldable pub after_status : Operation → NodeState → EffectStatus → Effect Platform Next
  after_status operation before current =
      if is_satisfied current
      then save_and_return c id (record {
        dispatch_status = some not_dispatched;
        effect_status = some current;
        terminal = some true;
        semantic_error = some "ALREADY_SATISFIED";
        evidence = some before;
      })
      else dispatch_allowed operation before (enforce c.config operation.kind before)

  -- From the first observation to the dispatch.
  unfoldable pub after_snapshot : Operation → NodeState → Effect Platform Next
  after_snapshot operation before =
      if is_announce operation.kind
      then dispatch_allowed operation before (enforce c.config operation.kind before)
      else lift (effect_status operation before) >>= after_status operation before

  -- `barrier()`, which the transport calls right before it writes the control message.
  unfoldable pub barrier : Operation → String → Effect Platform Next
  barrier operation command = do
    require_ledger
    on_ledger (Methods.start_dispatch c.env c.node id)
    modify (λ p. record p { writes = p.writes ++ (id, command) ∷ [] })
    pure (await (dispatching operation command true))

  unfoldable pub after_acknowledgment : Operation → ℕ → Option Operation → Effect Platform Next
  after_acknowledgment operation time none = pure finished
  after_acknowledgment operation time (some _) =
      if is_announce operation.kind
      then save_and_return c id (record no_changes {
        effect_status = some EffectStatus.unknown;
        terminal = some true;
        semantic_error = some "PLAYBACK_EFFECT_NOT_OBSERVABLE";
      })
      else pure (await (verifying operation (time + c.effect_timeout)))

  unfoldable pub after_acceptance : Operation → Message → ℕ → Effect Platform Next
  after_acceptance operation response time = do
    require (not (field_is (get response "response") "Success"))
        (protocol_error "Missing or malformed AMI acknowledgment")
    saved ← save c id (record no_changes { dispatch_status = some acknowledged })
    after_acknowledgment operation time saved

  -- From the response of the transport, at the loop's time `time`.
  unfoldable pub after_response : Operation → Bool → Message → ℕ → Effect Platform Next
  after_response operation started response time p =
      if not started
      then (err (protocol_error "Transport did not cross durable dispatch boundary"), p)
      else if command_rejected response
      then save_and_return c id (ending rejected not_attempted "COMMAND_REJECTED") p
      else after_acceptance operation response time p

  abbrev pub verified : EffectStatus → NodeState → Option String → Changes
  verified effect state semantic_error = record {
    dispatch_status = none;
    effect_status = some effect;
    terminal = some true;
    semantic_error = semantic_error;
    evidence = some state;
  }

  -- One round of the loop of `verify_effect`.
  unfoldable pub after_sample : Operation → ℕ → NodeState → ℕ → EffectStatus → Effect Platform Next
  after_sample operation deadline state time effect =
      if is_satisfied effect
      then save_and_return c id (verified effect state none)
      else if leb deadline time
      then save_and_return c id (
          verified effect state (
            some (
              if is_unknown effect
              then "POST_DISPATCH_STATE_UNKNOWN"
              else "EFFECT_NOT_CONFIRMED_WITHIN_OBSERVATION_WINDOW")))
      else pure (await (sleeping operation deadline))

-- What the event loop hands to a waiting task.
pub data Event : Type 0 where
  run elapsed barrier_reached cancel : Event
  snapshot : NodeState → (time : ℕ) → Event
  response : Message → (time : ℕ) → Event
  raised : Exception → Event

-- `self.busy_operation_id == operation_id`
abbrev pub holds_slot : String → Option String → Bool
holds_slot id none = false
holds_slot id (some busy) = str_eq busy id

module _ (c : Settings) (id : String) where
  -- The code from the `await` of the stage on. An event that the `await` cannot give is passed over.
  unfoldable pub resume : Stage → Event → Effect Platform Next
  resume created run = begin c id
  resume created _ = pure (await created)
  resume (observing o) (snapshot s time) = after_snapshot c id o s
  resume (observing o) (raised e) = raise e
  resume (observing o) _ = pure (await (observing o))
  resume (dispatching o command started) barrier_reached = barrier c id o command
  resume (dispatching o command started) (response m time) = after_response c id o started m time
  resume (dispatching o command started) (raised e) = raise e
  resume (dispatching o command started) _ = pure (await (dispatching o command started))
  resume (verifying o deadline) (snapshot s time) =
      lift (effect_status o s) >>= after_sample c id o deadline s time
  resume (verifying o deadline) (raised e) = raise e
  resume (verifying o deadline) _ = pure (await (verifying o deadline))
  resume (sleeping o deadline) elapsed = pure (await (verifying o deadline))
  resume (sleeping o deadline) (raised e) = raise e
  resume (sleeping o deadline) _ = pure (await (sleeping o deadline))

  -- `finally: if self.busy_operation_id == operation_id: self.busy_operation_id = None`
  abbrev pub release : Platform → Platform
  release p = record p {
    busy_operation_id = if holds_slot id p.busy_operation_id then none else p.busy_operation_id;
  }

  -- `except Exception`, and `except asyncio.CancelledError`.
  abbrev pub failure : Bool → Changes
  failure true = ending outcome_unknown EffectStatus.unknown "DISPATCH_OUTCOME_UNCERTAIN"
  failure false = ending not_dispatched not_attempted "DISPATCH_NOT_ATTEMPTED"

  abbrev pub cancellation : Bool → Changes
  cancellation true =
      ending outcome_unknown EffectStatus.unknown "WORKER_CANCELLED_AFTER_POSSIBLE_DISPATCH"
  cancellation false = ending not_dispatched not_attempted "WORKER_CANCELLED_BEFORE_DISPATCH"

  -- The handlers of `execute` around one stretch.
  unfoldable pub settle : Bool → Result Next × Platform → Platform
  settle started (ok finished, p) = release p
  settle started (ok (await stage), p) = record p {
    tasks = record { id = id; stage = stage } ∷ p.tasks;
  }
  settle started (err e, p) = release (save c id (failure started) p).1

  -- A task that is cancelled before its coroutine begins runs none of its code.
  unfoldable pub step_task : Stage → Event → Platform → Platform
  step_task created cancel p = p
  step_task stage cancel p = release (save c id (cancellation (has_started stage)) p).1
  step_task stage event p = settle (has_started stage) (resume stage event p)

abbrev pub add_task : Worker → Option (Stage × List Worker) → Option (Stage × List Worker)
add_task w none = none
add_task w (some (stage, rest)) = some (stage, w ∷ rest)

unfoldable pub take_task : String → List Worker → Option (Stage × List Worker)
take_task id [] = none
take_task id (w ∷ rest) =
    if str_eq w.id id then some (w.stage, rest) else add_task w (take_task id rest)

abbrev pub step_found :
    Settings → String → Event → Platform → Option (Stage × List Worker) → Platform
step_found c id event p none = p
step_found c id event p (some (stage, rest)) =
    step_task c id stage event (record p { tasks = rest })

-- The event loop resumes the task of an operation.
unfoldable pub advance : Settings → String → Event → Platform → Platform
advance c id event p = step_found c id event p (take_task id p.tasks)
