-- ===== src/Ledger/Retries.antt =====
-- An idempotency key, however many calls of the ledger lie between two admissions.
use asl3_api.Prelude.{
  String, Bool, false, some, List, [], ◌∷◌, str_eq, eq_iff, eq_refl, ◌≡◌, ◌⊎◌, refl, sym, ap, ◌∙◌,
  arith, Bool-cases, inl, inr,
}
use asl3_api.Errors.{ok, err, problem}
use asl3_api.Models.{Operation, Kind, Request}
use asl3_api.Ledger.{Env, Row, Db, transaction, find_key, match_request, at_key}
use asl3_api.Ledger.Canonical.{canonical}
use asl3_api.Ledger.Methods.{existing, admit}
use asl3_api.Ledger.Recovery.Tracking.{HasUniqueIds}
use asl3_api.Ledger.Admission.{admit_cases}
use asl3_api.Ledger.Idempotency.{existing_after, match_request-found}
use asl3_api.Ledger.Persistence.Methods.{admit-Extends}
use asl3_api.Ledger.Calls.{Call, performs, performs-Extends}

abbrev pub empty : Db
empty = record { rows = []; transactions = 0 }

find_key-id :
    (node credential key : String) (rows : List Row) (row : Row)
    → HasUniqueIds rows
    → find_key node credential (some key) rows ≡ some row
    → row.document.id ≡ row.id
unfolding find_key
find_key-id node credential key [] row u e = absurd (ground arith)
find_key-id node credential key (r ∷ rows) row (same, _, u) e =
    elim (Bool-cases (at_key node credential (some key) r)) [
      | inl hit ↦ let here : r ≡ row = ground arith in rw (← here) same
      | inr miss ↦ find_key-id node credential key rows row u (ground arith)
    ]

module _ (env : Env) (node credential key : String) where
  -- The row of the key after an admission, with what it keeps of it.
  keyed :
      (kind : Kind) (request : Request) (db db' : Db) (o : Operation) (created : Bool)
      → admit env node kind request credential (some key) db ≡ (ok (o, created), db')
      → (row : Row) × (find_key node credential (some key) db'.rows ≡ some row)
        × (row.document ≡ o)
        × (row.canonical ≡ canonical kind request)
  unfolding existing
  keyed kind request db db' o created e = match_request-found kind request _ (
      existing_after env node credential key kind request db db' o created kind request
        (admit_cases env node kind request credential (some key) db e)
      ∙ rw (eq_refl (canonical kind request)) refl)

  answers_row :
      (kind : Kind) (request : Request) (db : Db) (row : Row)
      → env.fails db.transactions ≡ false
      → find_key node credential (some key) db.rows ≡ some row
      → (((row.canonical ≡ canonical kind request)
            × ((admit env node kind request credential (some key) db).0 ≡ ok (row.document, false)))
          ⊎ ((str_eq row.canonical (canonical kind request) ≡ false)
              × ((admit env node kind request credential (some key) db).0
                  ≡ err (problem 409 "IDEMPOTENCY_CONFLICT"))))
        × ((admit env node kind request credential (some key) db).1.rows ≡ db.rows)
  unfolding admit transaction existing match_request
  answers_row kind request db row works hit =
      elim (Bool-cases (str_eq row.canonical (canonical kind request))) [
        | inl t ↦
            rw (works, hit, t)
              (inl ((eq_iff row.canonical (canonical kind request)).0 t, refl), refl)
        | inr f ↦ rw (works, hit, f) (inr (refl, refl), refl)
      ]

  -- Once an admission under a key has returned an operation, on a ledger that was empty at first, an
  -- admission under that key, whatever calls of the ledger's methods lie between, while the database
  -- works: it changes no row, and returns the operation of the same id, as not created, if the
  -- canonical requests are equal, and raises the conflict 409 if they differ.
  pub admit_again :
      (before between : List Call) (kind kind' : Kind) (request request' : Request) {o : Operation}
      {created : Bool} {db : Db}
      → admit env node kind request credential (some key) (performs env node before empty)
        ≡ (ok (o, created), db)
      → env.fails (performs env node between db).transactions ≡ false
      → (((canonical kind request ≡ canonical kind' request')
            × ((o' : Operation) × ((admit env node kind' request' credential
                    (some key)
                    (performs env node between db)).0
                  ≡ ok (o', false))
                × (o'.id ≡ o.id)))
          ⊎ ((str_eq (canonical kind request) (canonical kind' request') ≡ false)
              × ((admit env node kind' request' credential
                    (some key)
                    (performs env node between db)).0
                  ≡ err (problem 409 "IDEMPOTENCY_CONFLICT"))))
        × ((admit env node kind' request' credential
              (some key)
              (performs env node between db)).1.rows
            ≡ (performs env node between db).rows)
  admit_again before between kind kind' request request' {o} {created} {db} e works =
      let (row, hit, document, asked) = keyed kind request _ db o created e in
      let later = performs-Extends env node between db in
      let (row', hit', same_id, same_asked) = later.key_kept credential key row hit in
      let unique = now_unique in
      let ids : row'.document.id ≡ o.id =
        find_key-id node credential key _ row' (later.unique unique) hit'
        ∙ same_id
        ∙ sym (find_key-id node credential key db.rows row unique hit)
        ∙ ap (λ x. x.id) document in
      let (answer, kept) =
        answers_row kind' request' (performs env node between db) row' works hit' in
      (
        elim answer [
          | inl (same, returned) ↦
              inl (sym asked ∙ sym same_asked ∙ same, (row'.document, returned, ids))
          | inr (differ, refused) ↦ inr (rw (← asked, ← same_asked) differ, refused)
        ],
        kept,
      )
    where
      now_unique : HasUniqueIds db.rows
      now_unique =
          let first =
            admit-Extends node env kind request credential (some key)
              (performs env node before empty) in
          rw (← (ap (λ x. x.1.rows) e))
            (first.unique ((performs-Extends env node before empty).unique tt))
