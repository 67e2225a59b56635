-- ===== src/Ledger/History.antt =====
-- The table against the history of control writes: each row says whether its operation was written.
use asl3_api.Prelude.{
  ℕ, suc, ◌+◌, ◌≤◌, String, Bool, true, false, not, ◌||◌, ◌&&◌, Option, none, some, List, [], ◌∷◌,
  ◌++◌, all, is_some, ltb, str_eq, eq_iff, eq_refl, if◌then◌else◌, ◌≡◌, refl, arith, Bool-cases,
  inl, inr, ◌∙◌, subst,
}
use asl3_api.Models.{Operation, DispatchStatus, queued, not_dispatched}
use asl3_api.Ledger.{Row, find, write, Changes, revise, at_id}
use asl3_api.Ledger.Rows.{find-write}

-- The operations and commands of the control messages, in the order they were written.
abbrev pub Writes : Type 0
Writes = List (String × String)

-- How often the operation was written.
abbrev pub times_written : String → Writes → ℕ
times_written id [] = 0
times_written id (w ∷ writes) =
    let rest = times_written id writes in if str_eq w.0 id then suc rest else rest

abbrev pub is_written : String → Writes → Bool
is_written id writes = ltb 0 (times_written id writes)

pub times_written-append :
    (id : String) (writes : Writes) (w : String × String)
    → times_written id (writes ++ w ∷ [])
      ≡ times_written id writes + (if str_eq w.0 id then 1 else 0)
times_written-append id [] w = ground arith
times_written-append id (v ∷ writes) w = ground (arith, times_written-append id writes w)

-- The statuses of an operation that has crossed the dispatch boundary.
abbrev pub has_crossed : DispatchStatus → Bool
has_crossed queued = false
has_crossed not_dispatched = false
has_crossed _ = true

-- A status that may stand for an operation, given whether it was written.
abbrev pub fits : Bool → DispatchStatus → Bool
fits written status = not written || has_crossed status

unfoldable pub row_ok : String → Writes → Row → Bool
row_ok node writes row =
    not (str_eq row.node node)
    || (str_eq row.document.id row.id
        && fits (is_written row.id writes) row.document.dispatch_status)

-- What a row of the node says.
pub row_ok_parts :
    (node : String) (writes : Writes) (row : Row)
    → row_ok node writes row ≡ true
    → str_eq row.node node ≡ true
    → (row.document.id ≡ row.id)
      × (fits (is_written row.id writes) row.document.dispatch_status ≡ true)
unfolding row_ok
row_ok_parts node writes row h n =
    (ground (arith, eq_iff row.document.id row.id), ground (arith, eq_iff row.document.id row.id))

pub row_ok_of_parts :
    (node : String) (writes : Writes) (row : Row)
    → row.document.id ≡ row.id
    → fits (is_written row.id writes) row.document.dispatch_status ≡ true
    → row_ok node writes row ≡ true
unfolding row_ok
row_ok_of_parts node writes row i f = rw (i, eq_refl row.id, f) (ground arith)

pub row_ok_of_elsewhere :
    (node : String) (writes : Writes) (row : Row)
    → str_eq row.node node ≡ false
    → row_ok node writes row ≡ true
unfolding row_ok
row_ok_of_elsewhere node writes row e = rw e refl

pub record Agrees (node : String) (writes : Writes) (rows : List Row) : Type 0 where
  pub rows_ok : all (row_ok node writes) rows ≡ true
  pub present : (id : String) → is_written id writes ≡ true → is_some (find node id rows) ≡ true
  pub once : (id : String) → times_written id writes ≤ 1

-- The status that changes write, against whether the operation was written.
abbrev pub changes_fit : Bool → Option DispatchStatus → Bool
changes_fit written none = true
changes_fit written (some status) = fits written status

module _ (node : String) (writes : Writes) where
  -- What a found operation's row says.
  pub find_ok :
      (id : String) (rows : List Row) (o : Operation)
      → all (row_ok node writes) rows ≡ true
      → find node id rows ≡ some o
      → (o.id ≡ id) × (fits (is_written id writes) o.dispatch_status ≡ true)
  unfolding find
  find_ok id [] o h e = cc
  find_ok id (row ∷ rows) o h e = elim (Bool-cases (at_id node id row)) [
    | inl hit ↦
        let same : row.document ≡ o = ground arith in
        let here : row.id ≡ id = ground (arith, eq_iff row.id id) in
        let parts = row_ok_parts node writes row (ground arith) (ground arith) in
        rw (← same, ← here) parts
    | inr miss ↦ find_ok id rows o (ground arith) (ground arith)
  ]

  pub all-row_ok-write :
      (id : String) (rows : List Row) (o : Operation)
      → o.id ≡ id
      → fits (is_written id writes) o.dispatch_status ≡ true
      → all (row_ok node writes) rows ≡ true
      → all (row_ok node writes) (write node id o rows) ≡ true
  unfolding write
  all-row_ok-write id [] o i f h = h
  all-row_ok-write id (row ∷ rows) o i f h =
      let rest = all-row_ok-write id rows o i f (ground arith) in
      elim (Bool-cases (at_id node id row)) [
        | inl hit ↦
            let here : id ≡ row.id = ground (arith, eq_iff row.id id) in
            let new : row_ok node writes (record row { document = o }) ≡ true =
              row_ok_of_parts node writes (record row { document = o }) (i ∙ here)
                (subst (λ j. fits (is_written j writes) o.dispatch_status ≡ true) here f) in
            rw (hit, new) rest
        | inr miss ↦ rw miss (ground arith)
      ]

  pub all-row_ok-append :
      (rows : List Row) (row : Row)
      → all (row_ok node writes) rows ≡ true
      → row_ok node writes row ≡ true
      → all (row_ok node writes) (rows ++ row ∷ []) ≡ true
  all-row_ok-append [] row h k = ground arith
  all-row_ok-append (r ∷ rows) row h k = ground (arith, all-row_ok-append rows row)

  -- A revision whose status fits keeps the table in agreement with the history.
  pub revise-Agrees :
      (id : String) (changes : Changes) (at : String) (rows : List Row) (o : Operation)
      → Agrees node writes rows
      → find node id rows ≡ some o
      → changes_fit (is_written id writes) changes.dispatch_status ≡ true
      → Agrees node writes (write node id (revise changes at o) rows)
  revise-Agrees id changes at rows o a e f =
      let (same, fit) = find_ok id rows o a.rows_ok e in
      record {
        rows_ok = all-row_ok-write id rows (revise changes at o) same (ground arith) a.rows_ok;
        present =
            λ j w. ground (arith, find-write node id j (revise changes at o) rows, a.present j w);
        once = a.once;
      }
