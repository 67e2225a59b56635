-- ===== src/Ledger/Persistence/Methods.antt =====
-- Each method of the ledger extends the table.
use asl3_api.Prelude.{
  any, str_eq, eq_iff, refl, false, ℕ, String, Bool, not, Option, none, some, List, [], ◌∷◌, ◌++◌,
  ◌≡◌, arith, Option-cases, Bool-cases, inl, inr,
}
use asl3_api.Errors.{Result, ok, err, >>=-returned}
use asl3_api.Errors as Errors
use asl3_api.Effects.{Effect, bind_keeps}
use asl3_api.Effects as Effects
use asl3_api.Models.{Operation, Kind, Request, dispatch_started}
use asl3_api.Ledger.{
  Env, Row, Db, select, find, find_key, write, insert, Changes, no_changes, revise,
}
use asl3_api.Ledger.Methods.{
  is_queued, documents, new_operation, new_row, get, find_idempotent, existing, admit_new, admit,
  update_rows, update, start_dispatch, may_not_start, recovery, recover_one, recover_all, recover,
}
use asl3_api.Ledger.Rows.{any-id_of_insert}
use asl3_api.Ledger.Recovery.Tracking.{HasUniqueIds}
use asl3_api.Ledger.Safety.{transaction_cases}
use asl3_api.Ledger.Persistence.{
  Extends, Extends-refl, Extends-trans, append-Extends, write-Extends, revise-SameRequest,
}

any-append :
    (j : String) (rows : List Row) (new : Row)
    → any (λ r. str_eq r.id j) rows ≡ false
    → str_eq new.id j ≡ false
    → any (λ r. str_eq r.id j) (rows ++ new ∷ []) ≡ false
any-append j [] new a e = ground arith
any-append j (r ∷ rows) new a e = ground (arith, any-append j rows new)

-- A row with a new id.
append-HasUniqueIds :
    (new : Row) (rows : List Row)
    → HasUniqueIds rows
    → new.document.id ≡ new.id
    → any (λ r. str_eq r.id new.id) rows ≡ false
    → HasUniqueIds (rows ++ new ∷ [])
append-HasUniqueIds new [] u same a = (same, refl, tt)
append-HasUniqueIds new (r ∷ rows) (i, other, u) same a = (
  i,
  any-append r.id rows new other (ground (arith, eq_iff r.id new.id, eq_iff new.id r.id)),
  append-HasUniqueIds new rows u same (ground arith),
)

module _ (node : String) (env : Env) where
  pub select-Extends :
      {A : Type 0} (query : List Row → A) (db : Db)
      → Extends node db.rows (select env query db).1.rows
  unfolding select
  select-Extends query db =
      transaction_cases (Extends node db.rows) env (λ n rows. ok (query rows, rows)) db
        (Extends-refl node db.rows)
        λ b rows e.
          let same : db.rows ≡ rows = ground arith in rw (← same) (Extends-refl node db.rows)

  pub get-Extends : (id : String) (db : Db) → Extends node db.rows (get env node id db).1.rows
  unfolding get
  get-Extends id db = select-Extends (find node id) db

  pub open-Extends : (db : Db) → Extends node db.rows (select env (λ rows. tt {0}) db).1.rows
  open-Extends db = select-Extends (λ rows. tt) db

  pub update-Extends :
      (id : String) (changes : Changes) (db : Db)
      → Extends node db.rows (update env node id changes db).1.rows
  unfolding update update_rows
  update-Extends id changes db =
      transaction_cases (Extends node db.rows) env
        (λ n rows. update_rows env node id changes (env.now n) rows (find node id rows)) db
        (Extends-refl node db.rows)
        λ o rows e. elim (Option-cases (find node id db.rows)) [
          | inl missing ↦ absurd (ground (arith, missing, e))
          | inr (old, found) ↦
              let new = revise changes (env.now db.transactions) old in
              let same : write node id new db.rows ≡ rows = ground (arith, found, e) in
              rw (← same) (
                write-Extends node id old new db.rows found
                  (revise-SameRequest changes (env.now db.transactions) old))
        ]

  -- A method after another.
  bind-Extends :
      {A B : Type 0} (m : Effect Db A) (f : A → Effect Db B) (db : Db)
      → Extends node db.rows (m db).1.rows
      → ((a : A) (s : Db) → Extends node s.rows (f a s).1.rows)
      → Extends node db.rows (Effects.◌>>=◌ m f db).1.rows
  bind-Extends m f db first later =
      bind_keeps (λ s. Extends node db.rows s.rows) m f db first
        λ a e. Extends-trans node db.rows (m db).1.rows _ first (later a (m db).1)

  pub start_dispatch-Extends :
      (id : String) (db : Db) → Extends node db.rows (start_dispatch env node id db).1.rows
  unfolding start_dispatch
  start_dispatch-Extends id db = bind-Extends (get env node id) _ db (get-Extends id db) λ o s.
      elim (Bool-cases (may_not_start o)) [
        | inl refused ↦ rw refused (Extends-refl node s.rows)
        | inr queued_still ↦
            rw queued_still
              (update-Extends id (record no_changes { dispatch_status = some dispatch_started }) s)
      ]

  recover_one-Extends :
      (o : Operation) (db : Db) → Extends node db.rows (recover_one env node o db).1.rows
  unfolding recover_one
  recover_one-Extends o db = elim (Bool-cases o.terminal) [
    | inl done ↦ rw done (Extends-refl node db.rows)
    | inr live ↦
        let changes = recovery (not (is_queued o.dispatch_status)) in
        rw live (
          bind-Extends (update env node o.id changes) _ db (update-Extends o.id changes db)
            λ _ s. Extends-refl node s.rows)
  ]

  recover_all-Extends :
      (os : List Operation) (db : Db) → Extends node db.rows (recover_all env node os db).1.rows
  unfolding recover_all
  recover_all-Extends [] db = Extends-refl node db.rows
  recover_all-Extends (o ∷ os) db =
      bind-Extends (recover_one env node o) _ db (recover_one-Extends o db)
        λ _ s. recover_all-Extends os s

  pub recover-Extends : (db : Db) → Extends node db.rows (recover env node db).1.rows
  unfolding recover
  recover-Extends db =
      bind-Extends (select env (documents node)) _ db (select-Extends (documents node) db)
        λ os s. recover_all-Extends os s

  module _ (kind : Kind) (request : Request) (credential : String) (key : Option String) where
    pub find_idempotent-Extends :
        (db : Db)
        → Extends node db.rows (find_idempotent env node kind request credential key db).1.rows
    unfolding find_idempotent
    find_idempotent-Extends db = by_key key
      where
        by_key :
            (k : Option String)
            → Extends node db.rows (find_idempotent env node kind request credential k db).1.rows
        by_key none = Extends-refl node db.rows
        by_key (some k) =
            bind-Extends (select env (find_key node credential (some k))) _ db
              (select-Extends (find_key node credential (some k)) db)
              λ row s. Extends-refl node s.rows

    admit_new-Extends :
        (n : ℕ) (rows : List Row) (found : Option Operation) (result : Operation × Bool)
        (rows' : List Row)
        → admit_new env node kind request credential key n rows found ≡ ok (result, rows')
        → Extends node rows rows'
    unfolding admit_new insert
    admit_new-Extends n rows (some o) result rows' e =
        let same : rows ≡ rows' = ground arith in rw (← same) (Extends-refl node rows)
    admit_new-Extends n rows none result rows' e =
        let o = new_operation node kind request credential (env.uuid n) (env.now n) in
        let inserted : insert (new_row node o key) rows ≡ ok rows' = ground arith in
        let same : rows ++ new_row node o key ∷ [] ≡ rows' = ground arith in
        rw (← same) (
          append-Extends node rows (new_row node o key ∷ []) λ u.
            append-HasUniqueIds (new_row node o key) rows u refl
              (any-id_of_insert (new_row node o key) rows rows' inserted))

    pub admit-Extends :
        (db : Db) → Extends node db.rows (admit env node kind request credential key db).1.rows
    unfolding admit
    admit-Extends db =
        transaction_cases (Extends node db.rows) env
          (λ n rows.
            Errors.◌>>=◌ (existing env node kind request credential key rows)
              (admit_new env node kind request credential key n rows))
          db (Extends-refl node db.rows)
          λ result rows e.
            let (found, _, later) =
              >>=-returned (existing env node kind request credential key db.rows)
                (admit_new env node kind request credential key db.transactions db.rows) e in
            admit_new-Extends db.transactions db.rows found result rows later
