-- ===== src/Service/Record/Outcomes.antt =====
-- The stretches of `execute` after the dispatch, against `Traced`.
use asl3_api.Prelude.{
  ℕ, String, Bool, true, false, Option, none, some, get, leb, Bool-cases, inl, inr,
}
use asl3_api.Errors.{Result, ok}
use asl3_api.Models.{Operation, NodeState, EffectStatus, acknowledged}
use asl3_api.Transport.{Message, field_is, command_rejected}
use asl3_api.Ledger.{no_changes}
use asl3_api.Service.{verifying, sleeping, Platform, Settings, save}
use asl3_api.Service.Execution.{
  Next, finished, await, is_announce, is_satisfied, after_acknowledgment, after_acceptance,
  after_response, after_sample,
}
use asl3_api.Service.Record.{
  NextOk, WritesOk, Grown-refl, Traced, save-Grown, Traced-of_Grown, bind-Traced,
  save_and_return-Traced, Traced-trans, WritesOk-of_Grown,
}

module _ (c : Settings) (Seen : String → NodeState → Type 0) (id : String) (p : Platform)
    (h : WritesOk c Seen p) where
  -- Nothing was done.
  pub idle-Traced : (r : Result Next) → NextOk c Seen p.db.rows id r → Traced c Seen id p (r, p)
  idle-Traced r n = Traced-of_Grown c Seen id p h p r (Grown-refl c Seen p) n

  after_acknowledgment-Traced :
      (q : Platform) (o : Operation) (time : ℕ) (saved : Option Operation)
      → WritesOk c Seen q
      → Traced c Seen id q (after_acknowledgment c id o time saved q)
  unfolding after_acknowledgment
  after_acknowledgment-Traced q o time none g =
      Traced-of_Grown c Seen id q g q (ok finished) (Grown-refl c Seen q) tt
  after_acknowledgment-Traced q o time (some _) g = elim (Bool-cases (is_announce o.kind)) [
    | inl t ↦ rw t (save_and_return-Traced c Seen id q g _)
    | inr f ↦
        rw f (Traced-of_Grown c Seen id q g q (ok (await (verifying o _))) (Grown-refl c Seen q) tt)
  ]

  after_acceptance-Traced :
      (o : Operation) (m : Message) (time : ℕ)
      → Traced c Seen id p (after_acceptance c id o m time p)
  unfolding after_acceptance
  after_acceptance-Traced o m time = elim (Bool-cases (field_is (get m "response") "Success")) [
    | inl t ↦
        let k =
          save-Grown c Seen id (record no_changes { dispatch_status = some acknowledged }) p in
        rw t (
          bind-Traced c Seen id p h (save c id _) _ k λ saved _.
            Traced-trans c Seen id p _ _ k
              (after_acknowledgment-Traced _ o time saved (WritesOk-of_Grown c Seen p _ k h)))
    | inr f ↦ rw f (idle-Traced _ tt)
  ]

  pub after_response-Traced :
      (o : Operation) (command : String) (started : Bool) (m : Message) (time : ℕ)
      → Traced c Seen id p (after_response c id o started m time p)
  unfolding after_response
  after_response-Traced o command false m time = idle-Traced _ tt
  after_response-Traced o command true m time = elim (Bool-cases (command_rejected m)) [
    | inl t ↦ rw t (save_and_return-Traced c Seen id p h _)
    | inr f ↦ rw f (after_acceptance-Traced o m time)
  ]

  pub after_sample-Traced :
      (o : Operation) (deadline time : ℕ) (state : NodeState) (effect : EffectStatus)
      → Traced c Seen id p (after_sample c id o deadline state time effect p)
  unfolding after_sample
  after_sample-Traced o deadline time state effect = elim (Bool-cases (is_satisfied effect)) [
    | inl t ↦ rw t (save_and_return-Traced c Seen id p h _)
    | inr f ↦ rw f (elim (Bool-cases (leb deadline time)) [
      | inl late ↦ rw late (save_and_return-Traced c Seen id p h _)
      | inr early ↦ rw early (idle-Traced (ok (await (sleeping o deadline))) tt)
    ])
  ]
