-- ===== src/Service/Reach/Retried/Answers.antt =====
-- What the row of an idempotency key answers after an admission.
use asl3_api.Prelude.{
  String, Bool, true, false, not, Option, none, some, List, [], ◌∷◌, is_some, eq_refl,
  if◌then◌else◌, all, ◌≡◌, sym, ap, subst, ◌∙◌, Bool-cases, inl, inr, arith,
}
use asl3_api.Errors.{problem, Result, ok, err}
use asl3_api.Effects.{Effect, lift, require, bind_returned}
use asl3_api.Models.{Operation, Kind, Request}
use asl3_api.Models.Command.{command_for}
use asl3_api.Ledger.{Db, Row, select, find_key, match_request, at_key}
use asl3_api.Ledger.Canonical.{canonical}
use asl3_api.Ledger.Methods as Methods
use asl3_api.Ledger.History.{Writes, row_ok, row_ok_parts}
use asl3_api.Ledger.Safety.{select_value, select_rows}
use asl3_api.Ledger.Idempotency.{existing_after}
use asl3_api.Ledger.Admission.{admit_cases}
use asl3_api.Ledger.Idempotency.{match_request-found}
use asl3_api.Service.{Platform, Settings, on_ledger, require_ledger}
use asl3_api.Service.Admission.{reserved, reserve, admit_fresh, admit, set_busy}
use asl3_api.Service.Safety.Tasks.{require_ledger_same, on_ledger_ok, Called}

-- A row of the node that a key finds names its own operation.
pub find_key-row_ok :
    (node credential key : String) (writes : Writes) (rows : List Row) (row : Row)
    → all (row_ok node writes) rows ≡ true
    → find_key node credential (some key) rows ≡ some row
    → row.document.id ≡ row.id
unfolding find_key
find_key-row_ok node credential key writes [] row h e = absurd (ground arith)
find_key-row_ok node credential key writes (r ∷ rows) row h e =
    elim (Bool-cases (at_key node credential (some key) r)) [
      | inl hit ↦
          let same : r ≡ row = ground arith in
          let parts = row_ok_parts node writes r (ground arith) (ground arith) in
          subst (λ x. x.document.id ≡ x.id) same parts.0
      | inr miss ↦ find_key-row_ok node credential key writes rows row (ground arith) (ground arith)
    ]

module _ (c : Settings) (kind : Kind) (request : Request) (credential key : String) where
  look : Effect Db (Option Operation)
  look = Methods.find_idempotent c.env c.node kind request credential (some key)

  -- An admission that returned has looked for the key, and went on from there.
  admit_looked :
      (p q : Platform) {o : Operation}
      → admit c kind request credential (some key) p ≡ (ok o, q)
      → (e : Option Operation) × Called look p e (on_ledger look p).1
        × (admit_fresh c kind request credential (some key) e (on_ledger look p).1 ≡ (ok o, q))
  unfolding admit look
  admit_looked p q {o} h =
      let (_, _, h1) = bind_returned require_ledger _ p h in
      let s : Platform = (require_ledger p).1 in
      let (_, _, h2) = bind_returned (lift (command_for c.node kind request)) _ s h1 in
      let (_, _, h3) =
        bind_returned (require (not s.healthy) (problem 503 "LEDGER_UNAVAILABLE")) _ s h2 in
      let (e, ran, h4) = bind_returned (on_ledger look) _ s h3 in
      subst
        (λ t.
          (e : Option Operation) × Called look t e (on_ledger look t).1
          × (admit_fresh c kind request credential (some key) e (on_ledger look t).1 ≡ (ok o, q)))
        (require_ledger_same p) (e, on_ledger_ok look s (on_ledger look s).1 ran, h4)

  -- What the look-up returned, and that it changed no row.
  look_ok :
      (db db' : Db) (e : Option Operation)
      → look db ≡ (ok e, db')
      → (match_request kind request (find_key c.node credential (some key) db.rows) ≡ ok e)
        × (db'.rows ≡ db.rows)
  unfolding look Methods.find_idempotent
  look_ok db db' e h =
      let query = find_key c.node credential (some key) in
      let (row, read, matched) =
        bind_returned (select c.env query) (λ row. lift (match_request kind request row)) db h in
      let value = select_value c.env query db read in
      (
        ap (match_request kind request) (sym value) ∙ ap (λ x. x.0) matched,
        sym (ap (λ x. x.1.rows) matched) ∙ select_rows c.env query db,
      )

  -- The row of the key answers with the operation.
  abbrev Answers : List Row → Operation → Type 0
  Answers rows o =
      match_request kind request (find_key c.node credential (some key) rows) ≡ ok (some o)

  reserved_ok :
      (r : Result (Operation × Bool)) (p q : Platform) {o : Operation}
      → reserved r p ≡ (ok o, q)
      → (created : Bool) × (r ≡ ok (o, created)) × (q.db ≡ p.db)
  unfolding reserved
  reserved_ok (ok (a, true)) p q e = (true, ground arith, sym (ap (λ x. x.1.db) e))
  reserved_ok (ok (a, false)) p q e = (false, ground arith, sym (ap (λ x. x.1.db) e))
  reserved_ok (err x) p q e = absurd (ground arith)

  existing-Answers :
      (rows : List Row) (o : Operation)
      → Methods.existing c.env c.node kind request credential (some key) rows ≡ ok (some o)
      → Answers rows o
  unfolding Methods.existing
  existing-Answers rows o e = e

  reserve-Answers :
      (p q : Platform) {o : Operation}
      → reserve c kind request credential (some key) p ≡ (ok o, q)
      → Answers q.db.rows o
  unfolding reserve
  reserve-Answers p q {o} e =
      let m : Effect Db (Operation × Bool) =
        Methods.admit c.env c.node kind request credential (some key) in
      let p0 : Platform = set_busy (some "RESERVING") p in
      let (created, returned, same) = reserved_ok (on_ledger m p0).0 (on_ledger m p0).1 q e in
      let done : Called m p0 (o, created) (on_ledger m p0).1 =
        on_ledger_ok m p0 (on_ledger m p0).1 (λ i. (returned i, (on_ledger m p0).1)) in
      let db' = (on_ledger m p0).1.db in
      let answered =
        existing_after c.env c.node credential key kind request p.db db' o created kind request
          (admit_cases c.env c.node kind request credential (some key) p.db done.ran) in
      subst (λ db. Answers db.rows o) (sym same)
        (existing-Answers db'.rows o (
          answered
          ∙ ap (λ b. if b then ok (some o) else err (problem 409 "IDEMPOTENCY_CONFLICT"))
              (eq_refl (canonical kind request))))

  admit_fresh-Answers :
      (e : Option Operation) (p q : Platform) {o : Operation}
      → (match_request kind request (find_key c.node credential (some key) p.db.rows) ≡ ok e)
      → admit_fresh c kind request credential (some key) e p ≡ (ok o, q)
      → Answers q.db.rows o
  unfolding admit_fresh
  admit_fresh-Answers (some a) p q {o} matched h =
      let same : p ≡ q = ap (λ x. x.1) h in
      let is : a ≡ o = ground arith in
      subst (λ s. Answers s.db.rows o) same (matched ∙ ap (λ x. ok (some x)) is)
  admit_fresh-Answers none p q matched h =
      let (_, _, later) =
        bind_returned (require (is_some p.busy_operation_id) (problem 409 "NODE_BUSY")) _ p h in
      reserve-Answers p q later

  -- After an admission that returned, the row of its key answers with the operation.
  pub admit-Answers :
      (p q : Platform) {o : Operation}
      → admit c kind request credential (some key) p ≡ (ok o, q)
      → Answers q.db.rows o
  admit-Answers p q h =
      let (e, looked, later) = admit_looked p q h in
      let (matched, same) = look_ok p.db (on_ledger look p).1.db e looked.ran in
      admit_fresh-Answers e (on_ledger look p).1 q
        (ap (λ rows. match_request kind request (find_key c.node credential (some key) rows)) same
          ∙ matched)
        later

  -- What an admission that returned left as it was.
  pub record Untouched (p q : Platform) : Type 0 where
    pub rows : q.db.rows ≡ p.db.rows
    pub tasks : q.tasks ≡ p.tasks
    pub writes : q.writes ≡ p.writes

  matched_fresh :
      (e : Option Operation) (row : Row) (p q : Platform) {o : Operation}
      → match_request kind request (some row) ≡ ok e
      → admit_fresh c kind request credential (some key) e p ≡ (ok o, q)
      → (row.document ≡ o) × (row.canonical ≡ canonical kind request) × (p ≡ q)
  unfolding admit_fresh match_request
  matched_fresh none row p q matched h = absurd (ground arith)
  matched_fresh (some a) row p q matched h =
      let (r, same, document, asked) = match_request-found kind request (some row) matched in
      let here : r ≡ row = ground arith in
      (ground (arith, document, here), ap (λ x. x.canonical) (sym here) ∙ asked, ap (λ x. x.1) h)

  -- An admission that returned while the key had a row.
  pub admit_matched :
      (p q : Platform) {o : Operation} (row : Row)
      → find_key c.node credential (some key) p.db.rows ≡ some row
      → admit c kind request credential (some key) p ≡ (ok o, q)
      → (row.document ≡ o) × (row.canonical ≡ canonical kind request) × Untouched p q
  admit_matched p q {o} row hit h =
      let (e, looked, later) = admit_looked p q h in
      let s = (on_ledger look p).1 in
      let (matched, same) = look_ok p.db s.db e looked.ran in
      let (document, asked, left) =
        matched_fresh e row s q (ap (match_request kind request) (sym hit) ∙ matched) later in
      (
        document,
        asked,
        subst (λ t. Untouched p t) left
            (record { rows = same; tasks = looked.same_tasks; writes = looked.same_writes }),
      )
