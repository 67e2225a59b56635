-- ===== src/Service/Safety/Stretches.antt =====
-- Each stretch of `execute` against `Post`: none but the barrier adds to the history of writes.
use asl3_api.Prelude.{
  ℕ, String, Bool, true, false, not, ◌||◌, Option, none, some, get, leb, ◌≡◌, refl, arith,
  Bool-cases, inl, inr,
}
use asl3_api.Errors.{Result, ok, err, problem, Result-cases}
use asl3_api.Models.{Operation, NodeState, EffectStatus, acknowledged}
use asl3_api.Models.Command.{command_for}
use asl3_api.Policy.{enforce}
use asl3_api.Transport.{Message, field_is, command_rejected}
use asl3_api.Ledger.{no_changes}
use asl3_api.Ledger.Methods as Methods
use asl3_api.Ledger.History.{is_written, Agrees}
use asl3_api.Ledger.Safety.{get-Agrees}
use asl3_api.Service.{observing, verifying, Platform, Settings, on_ledger, save}
use asl3_api.Service.Execution.{
  Next, finished, await, is_announce, is_satisfied, begin_with, begin, dispatch_allowed,
  after_status, after_snapshot, after_acknowledgment, after_acceptance, after_response,
  after_sample,
}
use asl3_api.Service.Status.{effect_status}
use asl3_api.Service.Safety.{
  next_started, Kept, Post, Post-of_Kept, on_ledger-Kept, save-Kept, save_and_return-Post,
  bind-Post, Post-trans,
}

module _ (c : Settings) (id : String) where
  -- Nothing was done.
  pub idle-Post :
      (started : Bool) (p : Platform) (r : Result Next)
      → Agrees c.node p.writes p.db.rows
      → (started ≡ false → is_written id p.writes ≡ false)
      → (next_started started r ≡ false → started ≡ false)
      → Post c id started p (r, p)
  idle-Post started p r a u n =
      Post-of_Kept c id started p p r
        (record { same_writes = refl; same_tasks = refl; same_busy = refl; agrees = a })
        (λ h. u (n h))

  begin_with-Post :
      (p q : Platform) (o : Option Operation)
      → Kept c p q
      → is_written id p.writes ≡ false
      → Post c id false p (begin_with o q)
  unfolding begin_with
  begin_with-Post p q none k u = Post-of_Kept c id false p q (ok finished) k (λ _. u)
  begin_with-Post p q (some o) k u =
      elim (Bool-cases (o.terminal || not (Methods.is_queued o.dispatch_status))) [
        | inl t ↦ rw t (Post-of_Kept c id false p q (ok finished) k (λ _. u))
        | inr f ↦ rw f (Post-of_Kept c id false p q (ok (await (observing o))) k (λ _. u))
      ]

  module _ (p : Platform) (a : Agrees c.node p.writes p.db.rows) where
    pub begin-Post : is_written id p.writes ≡ false → Post c id false p (begin c id p)
    unfolding begin
    begin-Post u = elim (Bool-cases (p.closing || not p.healthy)) [
      | inl t ↦ rw t (save_and_return-Post c id false _ p a (λ _. u) (rw u))
      | inr f ↦
          let k : Kept c p (on_ledger (Methods.get c.env c.node id) p).1 =
            on_ledger-Kept c (Methods.get c.env c.node id) p a
              (get-Agrees c.env c.node p.writes id p.db a) in
          rw f (
            bind-Post c id false p (on_ledger (Methods.get c.env c.node id)) begin_with k (λ _. u)
              λ o _. begin_with-Post p (on_ledger (Methods.get c.env c.node id) p).1 o k u)
    ]

    dispatch_allowed-Post :
        (o : Operation) (before : NodeState) (r : Result (Unit {0}))
        → is_written id p.writes ≡ false
        → Post c id false p (dispatch_allowed c id o before r p)
    unfolding dispatch_allowed
    dispatch_allowed-Post o before (ok _) u =
        elim (Result-cases (command_for c.node o.kind o.request)) [
          | inl (command, e) ↦ rw e (idle-Post false p _ a (λ _. u) (λ h. refl))
          | inr (x, e) ↦ rw e (idle-Post false p _ a (λ _. u) (λ h. refl))
        ]
    dispatch_allowed-Post o before (err (problem status code)) u =
        save_and_return-Post c id false _ p a (λ _. u) (rw u)
    dispatch_allowed-Post o before (err e) u = idle-Post false p (err e) a (λ _. u) (λ h. refl)

    after_status-Post :
        (o : Operation) (before : NodeState) (current : EffectStatus)
        → is_written id p.writes ≡ false
        → Post c id false p (after_status c id o before current p)
    unfolding after_status
    after_status-Post o before current u = elim (Bool-cases (is_satisfied current)) [
      | inl t ↦ rw t (save_and_return-Post c id false _ p a (λ _. u) (rw u))
      | inr f ↦ rw f (dispatch_allowed-Post o before (enforce c.config o.kind before) u)
    ]

    pub after_snapshot-Post :
        (o : Operation) (before : NodeState)
        → is_written id p.writes ≡ false
        → Post c id false p (after_snapshot c id o before p)
    unfolding after_snapshot
    after_snapshot-Post o before u = elim (Bool-cases (is_announce o.kind)) [
      | inl t ↦ rw t (dispatch_allowed-Post o before (enforce c.config o.kind before) u)
      | inr f ↦ rw f (elim (Result-cases (effect_status o before)) [
        | inl (current, e) ↦ rw e (after_status-Post o before current u)
        | inr (x, e) ↦ rw e (idle-Post false p _ a (λ _. u) (λ h. refl))
      ])
    ]

    after_acknowledgment-Post :
        (q : Platform) (o : Operation) (time : ℕ) (saved : Option Operation)
        → Kept c p q
        → Post c id true p (after_acknowledgment c id o time saved q)
    unfolding after_acknowledgment
    after_acknowledgment-Post q o time none k = Post-of_Kept c id true p q (ok finished) k (λ h. cc)
    after_acknowledgment-Post q o time (some _) k = elim (Bool-cases (is_announce o.kind)) [
      | inl t ↦ rw t (
          Post-trans c id true p q _ k
            (save_and_return-Post c id true _ q k.agrees (λ h. cc) (ground arith)))
      | inr f ↦ rw f (Post-of_Kept c id true p q (ok (await (verifying o _))) k (λ h. cc))
    ]

    after_acceptance-Post :
        (o : Operation) (m : Message) (time : ℕ)
        → Post c id true p (after_acceptance c id o m time p)
    unfolding after_acceptance
    after_acceptance-Post o m time = elim (Bool-cases (field_is (get m "response") "Success")) [
      | inl t ↦
          let k : Kept c p
              (save c id (record no_changes { dispatch_status = some acknowledged }) p).1 =
            save-Kept c id _ p a (ground arith) in
          rw t (
            bind-Post c id true p (save c id _) _ k (λ h. cc)
              λ saved _. after_acknowledgment-Post _ o time saved k)
      | inr f ↦ rw f (idle-Post true p _ a (λ h. cc) (λ h. h))
    ]

    pub after_response-Post :
        (o : Operation) (started : Bool) (m : Message) (time : ℕ)
        → (started ≡ false → is_written id p.writes ≡ false)
        → Post c id started p (after_response c id o started m time p)
    unfolding after_response
    after_response-Post o false m time u = idle-Post false p _ a u (λ h. refl)
    after_response-Post o true m time u = elim (Bool-cases (command_rejected m)) [
      | inl t ↦ rw t (save_and_return-Post c id true _ p a u (ground arith))
      | inr f ↦ rw f (after_acceptance-Post o m time)
    ]

    pub after_sample-Post :
        (o : Operation) (deadline time : ℕ) (state : NodeState) (effect : EffectStatus)
        → Post c id true p (after_sample c id o deadline state time effect p)
    unfolding after_sample
    after_sample-Post o deadline time state effect = elim (Bool-cases (is_satisfied effect)) [
      | inl t ↦ rw t (save_and_return-Post c id true _ p a (λ h. cc) (ground arith))
      | inr f ↦ rw f (elim (Bool-cases (leb deadline time)) [
        | inl late ↦ rw late (save_and_return-Post c id true _ p a (λ h. cc) (ground arith))
        | inr early ↦ rw early (idle-Post true p _ a (λ h. cc) (λ h. h))
      ])
    ]
