-- ===== src/Ledger/Recovery.antt =====
-- `recover` after a restart: every operation of the node ends terminal.
pub mod Tracking
use asl3_api.Prelude.{
  some_inj, if◌then◌else◌, String, Bool, true, false, not, ◌||◌, some, List, [], ◌∷◌, any, All,
  str_eq, eq_iff, ◌≡◌, refl, arith, Bool-cases, Option-cases, ◌⊎◌, inl, inr, ap, ◌∙◌, sym, subst,
}
use asl3_api.Errors.{ok}
use asl3_api.Effects.{pure, bind_returned}
use asl3_api.Models.{Operation, not_dispatched, outcome_unknown, EffectStatus, not_attempted}
use asl3_api.Ledger.{Env, Row, Db, transaction, select, find, write, revise, Changes}
use asl3_api.Ledger.Methods.{
  is_queued, documents, update_rows, update, recovery, recover_one, recover_all, recover,
}
use asl3_api.Ledger.Rows.{find-write}
use asl3_api.Ledger.Safety.{select_value, select_rows}
use asl3_api.Ledger.Recovery.Tracking.{HasUniqueIds, Revised, Tracked, or_true, rounds}

module _ (node id : String) (o : Operation) where
  own_of_absent :
      (rows : List Row)
      → HasUniqueIds rows
      → any (λ r. str_eq r.id id) rows ≡ false
      → All (λ x. str_eq x.id id ≡ true → x ≡ o) (documents node rows)
  unfolding documents
  own_of_absent [] u a = tt
  own_of_absent (row ∷ rows) (same, _, u) a = elim (Bool-cases (str_eq row.node node)) [
    | inl here ↦ rw here (
      (λ e. absurd (ground (arith, same, eq_iff row.id id, eq_iff row.document.id id))),
      own_of_absent rows u (ground arith),
    )
    | inr elsewhere ↦ rw elsewhere (own_of_absent rows u (ground arith))
  ]

  own_of_found :
      (rows : List Row)
      → HasUniqueIds rows
      → find node id rows ≡ some o
      → All (λ x. str_eq x.id id ≡ true → x ≡ o) (documents node rows)
        × (any (λ x. str_eq x.id id) (documents node rows) ≡ true)
  unfolding documents find
  own_of_found [] u f = absurd (ground arith)
  own_of_found (row ∷ rows) (same, alone, u) f = elim (Bool-cases (str_eq row.node node)) [
    | inl here ↦ elim (Bool-cases (str_eq row.id id)) [
      | inl mine ↦ rw here (
        (
          (λ _. ground (arith, mine, here)),
          own_of_absent rows u (rw (← (eq_iff row.id id).0 mine) alone),
        ),
        ground (arith, same, eq_iff row.id id, eq_iff row.document.id id),
      )
      | inr other ↦
          let later = own_of_found rows u (ground (arith, other, here)) in
          rw here (
            (
              (λ e.
                  absurd
                    (ground (arith, same, other, eq_iff row.id id, eq_iff row.document.id id))),
              later.0,
            ),
            rw later.1 (or_true _),
          )
    ]
    | inr elsewhere ↦ rw elsewhere (own_of_found rows u (ground (arith, elsewhere)))
  ]

-- An operation as recovery leaves it: terminal, NOT_DISPATCHED if it was QUEUED, and otherwise
-- OUTCOME_UNKNOWN.
abbrev pub recovered_at : String → Operation → Operation
recovered_at at o = record o {
  updated_at = at;
  dispatch_status = if is_queued o.dispatch_status then not_dispatched else outcome_unknown;
  effect_status = if is_queued o.dispatch_status then not_attempted else EffectStatus.unknown;
  terminal = true;
  semantic_error = some (
      if is_queued o.dispatch_status
      then "PROCESS_RESTART_BEFORE_DISPATCH"
      else "PROCESS_RESTART_AFTER_POSSIBLE_DISPATCH");
}

abbrev pub Recovered : Operation → Operation → Type 0
Recovered o o' =
    ((o.terminal ≡ true) × (o' ≡ o))
    ⊎ ((o.terminal ≡ false) × ((at : String) × (o' ≡ recovered_at at o)))

Recovered-of_Revised : (o o' : Operation) → Revised o o' → Recovered o o'
Recovered-of_Revised o o' (inl kept) = inl kept
Recovered-of_Revised o o' (inr (live, (at, same))) = inr (live, (at, same ∙ by_status))
  where
    by_status : revise (recovery (not (is_queued o.dispatch_status))) at o ≡ recovered_at at o
    by_status = elim (Bool-cases (is_queued o.dispatch_status)) [
      | inl still ↦ rw still refl
      | inr crossed ↦ rw crossed refl
    ]

-- A `recover` that returned has left every operation of the node terminal: one that was terminal
-- is as it was, and another is NOT_DISPATCHED if it was QUEUED, else OUTCOME_UNKNOWN. The ids of
-- the rows are distinct, and are those of the documents.
pub recover_ok :
    (env : Env) (node id : String) (db db' : Db) (o : Operation)
    → HasUniqueIds db.rows
    → recover env node db ≡ (ok tt, db')
    → find node id db.rows ≡ some o
    → (new : Operation) × (find node id db'.rows ≡ some new) × Recovered o new
unfolding recover
recover_ok env node id db db' o u e f =
    let (xs, read, ran) = bind_returned (select env (documents node)) (recover_all env node) db e in
    let same = select_value env (documents node) db read in
    let (own, present) = own_of_found node id o db.rows u f in
    let (new, found, done) =
      rounds env node id o xs (select env (documents node) db).1 db' false o ran (rw same own)
        (rw (select_rows env (documents node) db) f) refl in
    (
      new,
      found,
      Recovered-of_Revised o new (
          subst (λ b. Tracked b o new)
            (ap (λ (ys : List Operation). any (λ x. str_eq x.id id) ys) same ∙ present) done),
    )
