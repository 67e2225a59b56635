-- ===== src/Ledger/Safety/Restart.antt =====
-- `recover` keeps the table in agreement with the history of control writes.
use asl3_api.Prelude.{
  String, true, false, not, List, [], ◌∷◌, all, All, str_eq, ◌≡◌, arith, Bool-cases, inl, inr, sym,
  subst,
}
use asl3_api.Effects.{bind_keeps}
use asl3_api.Models.{Operation}
use asl3_api.Ledger.{Env, Row, Db, select}
use asl3_api.Ledger.Methods.{
  is_queued, documents, update, recovery, recover_one, recover_all, recover,
}
use asl3_api.Ledger.History.{Writes, is_written, changes_fit, row_ok, row_ok_parts, Agrees}
use asl3_api.Ledger.Safety.{select_value, select-Agrees, update-Agrees}

module _ (env : Env) (node : String) (writes : Writes) where
  documents_unwritten :
      (rows : List Row)
      → all (row_ok node writes) rows ≡ true
      → All
          (λ o. is_queued o.dispatch_status ≡ true → is_written o.id writes ≡ false)
          (documents node rows)
  unfolding documents
  documents_unwritten [] h = tt
  documents_unwritten (row ∷ rows) h =
      let rest = documents_unwritten rows (ground arith) in
      elim (Bool-cases (str_eq row.node node)) [
        | inl here ↦
            let parts = row_ok_parts node writes row (ground arith) here in
            rw here ((λ q. rw parts.0 (ground (arith, parts.1))), rest)
        | inr elsewhere ↦ rw elsewhere rest
      ]

  recover_one-Agrees :
      (o : Operation) (db : Db)
      → Agrees node writes db.rows
      → (is_queued o.dispatch_status ≡ true → is_written o.id writes ≡ false)
      → Agrees node writes (recover_one env node o db).1.rows
  unfolding recover_one
  recover_one-Agrees o db a unwritten =
      let fit : changes_fit (is_written o.id writes)
            (recovery (not (is_queued o.dispatch_status))).dispatch_status
          ≡ true =
        elim (Bool-cases (is_queued o.dispatch_status)) [
          | inl q ↦ rw (q, unwritten q)
          | inr crossed ↦ rw crossed (ground arith)
        ] in
      let updated =
        update-Agrees env node writes o.id (recovery (not (is_queued o.dispatch_status))) db a
          fit in
      elim (Bool-cases o.terminal) [
        | inl done ↦ rw done a
        | inr live ↦ rw live (
            bind_keeps (λ s. Agrees node writes s.rows)
              (update env node o.id (recovery (not (is_queued o.dispatch_status)))) _ db updated
              λ _ _. updated)
      ]

  recover_all-Agrees :
      (os : List Operation) (db : Db)
      → Agrees node writes db.rows
      → All (λ o. is_queued o.dispatch_status ≡ true → is_written o.id writes ≡ false) os
      → Agrees node writes (recover_all env node os db).1.rows
  unfolding recover_all
  recover_all-Agrees [] db a h = a
  recover_all-Agrees (o ∷ os) db a h =
      bind_keeps (λ s. Agrees node writes s.rows) (recover_one env node o) _ db
        (recover_one-Agrees o db a h.0)
        λ _ _.
          recover_all-Agrees os (recover_one env node o db).1 (recover_one-Agrees o db a h.0) h.1

  pub recover-Agrees :
      (db : Db) → Agrees node writes db.rows → Agrees node writes (recover env node db).1.rows
  unfolding recover select
  recover-Agrees db a =
      bind_keeps (λ s. Agrees node writes s.rows) (select env (documents node)) _ db
        (select-Agrees env node writes (documents node) db a)
        λ os e.
          recover_all-Agrees os (select env (documents node) db).1
            (select-Agrees env node writes (documents node) db a)
            (subst (All (λ o. is_queued o.dispatch_status ≡ true → is_written o.id writes ≡ false))
              (sym (select_value env (documents node) db e))
              (documents_unwritten db.rows a.rows_ok))
