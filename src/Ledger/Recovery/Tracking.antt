-- ===== src/Ledger/Recovery/Tracking.antt =====
-- What each update of `recover` does to an operation.
use asl3_api.Prelude.{
  some_inj, String, Bool, true, false, not, ◌||◌, some, List, [], ◌∷◌, any, All, str_eq, eq_iff,
  ◌≡◌, refl, arith, Bool-cases, Option-cases, ◌⊎◌, inl, inr, ap, ◌∙◌, sym, subst,
}
use asl3_api.Errors.{ok}
use asl3_api.Effects.{pure, bind_returned}
use asl3_api.Models.{Operation}
use asl3_api.Ledger.{Env, Row, Db, transaction, find, write, revise, Changes}
use asl3_api.Ledger.Methods.{is_queued, update_rows, update, recovery, recover_one, recover_all}
use asl3_api.Ledger.Rows.{find-write}

-- The primary key, and documents under their own ids.
abbrev pub HasUniqueIds : List Row → Type 0
HasUniqueIds [] = Unit
HasUniqueIds (row ∷ rows) =
    (row.document.id ≡ row.id) × (any (λ r. str_eq r.id row.id) rows ≡ false) × HasUniqueIds rows

-- What the loop makes of an operation.
abbrev pub Revised : Operation → Operation → Type 0
Revised o o' =
    ((o.terminal ≡ true) × (o' ≡ o))
    ⊎ ((o.terminal ≡ false)
        × ((at : String) × (o' ≡ revise (recovery (not (is_queued o.dispatch_status))) at o)))

-- How far recovery has come with an operation.
abbrev pub Tracked : Bool → Operation → Operation → Type 0
Tracked false o o' = o' ≡ o
Tracked true o o' = Revised o o'

Tracked-terminal :
    (d : Bool) (o cur : Operation) → o.terminal ≡ true → Tracked d o cur → Tracked true o cur
Tracked-terminal false o cur e t = inl (e, t)
Tracked-terminal true o cur e t = t

Tracked-live :
    (d : Bool) (o cur : Operation) (at : String)
    → o.terminal ≡ false
    → Tracked d o cur
    → Tracked true o (revise (recovery (not (is_queued o.dispatch_status))) at cur)
Tracked-live false o cur at e t =
    inr (e, (at, ap (revise (recovery (not (is_queued o.dispatch_status))) at) t))
Tracked-live true o cur at e (inl (terminal, t)) = absurd (ground arith)
Tracked-live true o cur at e (inr (_, (at', t))) =
    inr (e, (at, ap (revise (recovery (not (is_queued o.dispatch_status))) at) t ∙ refl))

pub or_true : (d : Bool) → (d || true) ≡ true
or_true true = refl
or_true false = refl

or_assoc : (a b c : Bool) → ((a || b) || c) ≡ (a || (b || c))
or_assoc true b c = refl
or_assoc false b c = refl

or_false : (d : Bool) → (d || false) ≡ d
or_false true = refl
or_false false = refl

module _ (env : Env) (node : String) where
  update_ok :
      (id : String) (changes : Changes) (db : Db) {o : Operation} {db' : Db}
      → update env node id changes db ≡ (ok o, db')
      → (old : Operation) × (at : String) × (find node id db.rows ≡ some old)
        × (db'.rows ≡ write node id (revise changes at old) db.rows)
  unfolding update update_rows transaction
  update_ok id changes db e = elim (Option-cases (find node id db.rows)) [
    | inl missing ↦ absurd (ground (arith, missing))
    | inr (old, found) ↦ (old, env.now db.transactions, found, ground (arith, found))
  ]

  module _ (id : String) (o : Operation) where
    -- The write of one round, to the operation's document or to another's.
    round_write :
        (x : Operation) (rows rows' : List Row) (d : Bool) (cur old : Operation) (at : String)
        → (str_eq x.id id ≡ true → x ≡ o)
        → find node id rows ≡ some cur
        → Tracked d o cur
        → x.terminal ≡ false
        → find node x.id rows ≡ some old
        → rows'
          ≡ write node x.id (revise (recovery (not (is_queued x.dispatch_status))) at old) rows
        → (new : Operation) × (find node id rows' ≡ some new) × Tracked (d || str_eq x.id id) o new
    round_write x rows rows' d cur old at own f t live found wrote =
        let changes = recovery (not (is_queued x.dispatch_status)) in
        elim (Bool-cases (str_eq x.id id)) [
          | inl mine ↦
              let here : x.id ≡ id = (eq_iff x.id id).0 mine in
              let whose : o ≡ x = sym (own mine) in
              let same : old ≡ cur =
                some_inj (subst (λ j. some old ≡ find node j rows) here (sym found) ∙ f) in
              (
                revise changes at old,
                rw (wrote, find-write node x.id id (revise changes at old) rows, mine, f) refl,
                rw (mine, or_true d, same)
                    (subst
                      (λ (z : Operation).
                        Tracked true o
                          (revise (recovery (not (is_queued z.dispatch_status))) at cur))
                      whose
                      (Tracked-live d o cur at (ap (λ (z : Operation). z.terminal) whose ∙ live)
                        t)),
              )
          | inr other ↦ (
            cur,
            rw (wrote, find-write node x.id id (revise changes at old) rows, other) f,
            rw (other, or_false d) t,
          )
        ]

    -- One round of the loop.
    round :
        (x : Operation) (db db' : Db) (d : Bool) (cur : Operation)
        → recover_one env node x db ≡ (ok tt, db')
        → (str_eq x.id id ≡ true → x ≡ o)
        → find node id db.rows ≡ some cur
        → Tracked d o cur
        → (new : Operation) × (find node id db'.rows ≡ some new)
          × Tracked (d || str_eq x.id id) o new
    unfolding recover_one
    round x db db' d cur e own f t = elim (Bool-cases x.terminal) [
      | inl done ↦
          let same : db.rows ≡ db'.rows = ground (arith, done) in
          (
            cur,
            rw (← same) f,
            elim (Bool-cases (str_eq x.id id)) [
              | inl mine ↦
                  rw (mine, or_true d)
                    (Tracked-terminal d o cur
                      (ap (λ (y : Operation). y.terminal) (sym (own mine)) ∙ done) t)
              | inr other ↦ rw (other, or_false d) t
            ],
          )
      | inr live ↦
          let changes = recovery (not (is_queued x.dispatch_status)) in
          let (y, ran, rest) =
            bind_returned (update env node x.id changes) (λ _. pure tt) db {b = tt} {s' = db'}
              (ground (arith, live)) in
          let (old, at, found, wrote) = update_ok x.id changes db ran in
          let same : (update env node x.id changes db).1.rows ≡ db'.rows = ground arith in
          round_write x db.rows db'.rows d cur old at own f t live found (sym same ∙ wrote)
    ]

    -- The loop, on documents where the operation's id names the operation alone.
    pub rounds :
        (xs : List Operation) (db db' : Db) (d : Bool) (cur : Operation)
        → recover_all env node xs db ≡ (ok tt, db')
        → All (λ x. str_eq x.id id ≡ true → x ≡ o) xs
        → find node id db.rows ≡ some cur
        → Tracked d o cur
        → (new : Operation) × (find node id db'.rows ≡ some new)
          × Tracked (d || any (λ x. str_eq x.id id) xs) o new
    unfolding recover_all
    rounds [] db db' d cur e own f t =
        let same : db.rows ≡ db'.rows = ground arith in (cur, rw (← same) f, rw (or_false d) t)
    rounds (x ∷ xs) db db' d cur e own f t =
        let (unit, first, rest) =
          bind_returned (recover_one env node x) (λ _. recover_all env node xs) db e in
        let mid = (recover_one env node x db).1 in
        let (new, found, tracked) = round x db mid d cur first own.0 f t in
        let (last, found', tracked') =
          rounds xs mid db' (d || str_eq x.id id) new rest own.1 found tracked in
        (last, found', subst (λ b. Tracked b o last) (or_assoc d (str_eq x.id id) _) tracked')
