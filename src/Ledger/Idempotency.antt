-- ===== src/Ledger/Idempotency.antt =====
-- An idempotency key after an admission: the same operation for the same request, a conflict for
-- another.
use asl3_api.Prelude.{
  String, Bool, true, Option, none, some, List, [], ◌∷◌, ◌++◌, str_eq, eq_iff, eq_refl,
  if◌then◌else◌, ◌≡◌, refl, arith,
}
use asl3_api.Errors.{Result, ok, err, problem}
use asl3_api.Models.{Operation, Kind, Request}
use asl3_api.Ledger.Canonical.{canonical}
use asl3_api.Ledger.{Env, Row, Db, find_key, match_request, insert, at_key}
use asl3_api.Ledger.Methods.{existing}
use asl3_api.Ledger.Rows.{find_key-append}
use asl3_api.Ledger.Admission.{Admitted, found, inserted, admit_new_row}

-- The row that answers with an operation.
pub match_request-found :
    (kind : Kind) (request : Request) (row : Option Row) {o : Operation}
    → match_request kind request row ≡ ok (some o)
    → (r : Row) × (row ≡ some r) × (r.document ≡ o) × (r.canonical ≡ canonical kind request)
unfolding match_request
match_request-found kind request none e = absurd (ground arith)
match_request-found kind request (some r) e =
    (r, refl, ground arith, ground (arith, eq_iff r.canonical (canonical kind request)))

module _ (env : Env) (node credential key : String) where
  -- What the key's row answers to a later request.
  abbrev pub answer : Kind → Request → Operation → Kind → Request → Result (Option Operation)
  answer kind request o kind' request' =
      if str_eq (canonical kind request) (canonical kind' request')
      then ok (some o)
      else err (problem 409 "IDEMPOTENCY_CONFLICT")

  match_request-some :
      (kind kind' : Kind) (request request' : Request) (r : Option Row) {o : Operation}
      → match_request kind request r ≡ ok (some o)
      → match_request kind' request' r ≡ answer kind request o kind' request'
  unfolding match_request
  match_request-some kind kind' request request' none e = absurd (ground arith)
  match_request-some kind kind' request request' (some row) e =
      let same : row.canonical ≡ canonical kind request =
        ground (arith, eq_iff row.canonical (canonical kind request)) in
      let document : row.document ≡ _ =
        ground (arith, eq_iff row.canonical (canonical kind request)) in
      rw (same, document) refl

  match_request-none :
      (kind : Kind) (request : Request) (r : Option Row)
      → match_request kind request r ≡ ok none
      → r ≡ none
  unfolding match_request
  match_request-none kind request none e = refl
  match_request-none kind request (some row) e = absurd (ground arith)

  find_key-insert :
      (new : Row) (rows rows' : List Row)
      → find_key node credential (some key) rows ≡ none
      → at_key node credential (some key) new ≡ true
      → insert new rows ≡ ok rows'
      → find_key node credential (some key) rows' ≡ some new
  unfolding insert
  find_key-insert new rows rows' absent hit put =
      let same : rows ++ new ∷ [] ≡ rows' = ground arith in
      rw (← same, find_key-append node credential (some key) rows (new ∷ []), absent)
        (unfold find_key in rw hit refl)

  module _ (kind : Kind) (request : Request) where
    -- After an admission the key's row answers with the operation.
    pub existing_after :
        (db db' : Db) (o : Operation) (created : Bool) (kind' : Kind) (request' : Request)
        → Admitted env node kind request credential (some key) db db' o created
        → existing env node kind' request' credential (some key) db'.rows
          ≡ answer kind request o kind' request'
    unfolding existing
    existing_after db db' o created kind' request' (found _ looked same) =
        rw same (match_request-some kind kind' request request' _ looked)
    existing_after db db' o created kind' request' (inserted _ looked put is) =
        let new = admit_new_row env node kind request credential (some key) db.transactions in
        let hit : at_key node credential (some key) new ≡ true =
          rw (eq_refl node, eq_refl credential, eq_refl key) in
        rw
          (
            find_key-insert new db.rows db'.rows (match_request-none kind request _ looked) hit put,
            is,
          )
          (unfold match_request in refl)
