-- ===== src/Ledger/Persistence.antt =====
-- No method of the ledger removes an operation, or changes what was asked for, by whom and under
-- which key.
pub mod Methods
use asl3_api.Prelude.{
  any, ℕ, String, Bool, true, false, not, Option, none, some, List, [], ◌∷◌, ◌++◌, str_eq, eq_iff,
  ◌≡◌, refl, arith, ap, ◌∙◌, Option-cases, Bool-cases, inl, inr,
}
use asl3_api.Errors.{Result, ok, err, >>=-returned}
use asl3_api.Errors as Errors
use asl3_api.Effects.{Effect, bind_keeps}
use asl3_api.Effects as Effects
use asl3_api.Models.{Operation, Kind, Request, dispatch_started}
use asl3_api.Ledger.{
  Env, Row, Db, transaction, select, find, find_key, write, insert, Changes, no_changes, revise,
  at_id, at_key,
}
use asl3_api.Ledger.Methods.{
  is_queued, documents, new_operation, new_row, get, find_idempotent, existing, admit_new, admit,
  update_rows, update, start_dispatch, may_not_start, recovery, recover_one, recover_all, recover,
}
use asl3_api.Ledger.Recovery.Tracking.{HasUniqueIds}
use asl3_api.Ledger.Rows.{find-append, find_key-append, find-write}
use asl3_api.Ledger.Safety.{transaction_cases}

-- One operation at two times: the identity and the request are those of before.
pub record SameRequest (o o' : Operation) : Type 0 where
  pub id : o'.id ≡ o.id
  pub kind : o'.kind ≡ o.kind
  pub request : o'.request ≡ o.request

pub SameRequest-refl : (o : Operation) → SameRequest o o
SameRequest-refl o = record { id = refl; kind = refl; request = refl }

pub SameRequest-trans : (a b c : Operation) → SameRequest a b → SameRequest b c → SameRequest a c
SameRequest-trans a b c h k = record {
  id = k.id ∙ h.id;
  kind = k.kind ∙ h.kind;
  request = k.request ∙ h.request;
}

pub revise-SameRequest :
    (changes : Changes) (at : String) (o : Operation) → SameRequest o (revise changes at o)
revise-SameRequest changes at o = record { id = refl; kind = refl; request = refl }

-- The table at two times.
pub record Extends (node : String) (rows rows' : List Row) : Type 0 where
  pub unique : HasUniqueIds rows → HasUniqueIds rows'
  pub kept :
      (id : String) (o : Operation)
      → find node id rows ≡ some o
      → (o' : Operation) × (find node id rows' ≡ some o') × SameRequest o o'
  pub key_kept :
      (credential key : String) (row : Row)
      → find_key node credential (some key) rows ≡ some row
      → (row' : Row) × (find_key node credential (some key) rows' ≡ some row')
        × (row'.id ≡ row.id)
        × (row'.canonical ≡ row.canonical)

module _ (node : String) where
  pub Extends-refl : (rows : List Row) → Extends node rows rows
  Extends-refl rows = record {
    unique = λ u. u;
    kept = λ id o e. (o, e, SameRequest-refl o);
    key_kept = λ credential key row e. (row, e, refl, refl);
  }

  pub Extends-trans : (a b c : List Row) → Extends node a b → Extends node b c → Extends node a c
  Extends-trans a b c h k = record {
    unique = λ u. k.unique (h.unique u);
    kept = λ id o e.
        let (o', e', s) = h.kept id o e in
        let (o'', e'', s') = k.kept id o' e' in (o'', e'', SameRequest-trans o o' o'' s s');
    key_kept = λ credential key row e.
        let (row', e', i, t) = h.key_kept credential key row e in
        let (row'', e'', i', t') = k.key_kept credential key row' e' in
        (row'', e'', i' ∙ i, t' ∙ t);
  }

  pub append-Extends :
      (rows more : List Row)
      → (HasUniqueIds rows → HasUniqueIds (rows ++ more))
      → Extends node rows (rows ++ more)
  append-Extends rows more u = record {
    unique = u;
    kept = λ id o e. (o, rw (find-append node id rows more, e) refl, SameRequest-refl o);
    key_kept = λ credential key row e.
        (row, rw (find_key-append node credential (some key) rows more, e) refl, refl, refl);
  }

  find_key-write :
      (id credential key : String) (o : Operation) (rows : List Row) (row : Row)
      → find_key node credential (some key) rows ≡ some row
      → (row' : Row) × (find_key node credential (some key) (write node id o rows) ≡ some row')
        × (row'.id ≡ row.id)
        × (row'.canonical ≡ row.canonical)
  unfolding find_key write
  find_key-write id credential key o [] row e = absurd (ground arith)
  find_key-write id credential key o (r ∷ rows) row e =
      elim (Bool-cases (at_key node credential (some key) r)) [
        | inl hit ↦ elim (Bool-cases (at_id node id r)) [
          | inl here ↦
              let same : r ≡ row = ground arith in
              (
                record r { document = o },
                rw (here, hit) refl,
                ap (λ x. x.id) same,
                ap (λ x. x.canonical) same,
              )
          | inr other ↦ (row, ground arith, refl, refl)
        ]
        | inr miss ↦
            let (row', e', i, t) = find_key-write id credential key o rows row (ground arith) in
            (row', ground arith, i, t)
      ]

  find-id :
      (id : String) (rows : List Row) (o : Operation)
      → HasUniqueIds rows
      → find node id rows ≡ some o
      → o.id ≡ id
  unfolding find
  find-id id [] o u e = absurd (ground arith)
  find-id id (r ∷ rows) o (same, _, u) e = elim (Bool-cases (at_id node id r)) [
    | inl hit ↦ ground (arith, same, eq_iff r.id id)
    | inr miss ↦ find-id id rows o u (ground arith)
  ]

  any-write :
      (id j : String) (o : Operation) (rows : List Row)
      → any (λ r. str_eq r.id j) (write node id o rows) ≡ any (λ r. str_eq r.id j) rows
  unfolding write
  any-write id j o [] = refl
  any-write id j o (r ∷ rows) = elim (Bool-cases (at_id node id r)) [
    | inl hit ↦ rw (hit, any-write id j o rows) refl
    | inr miss ↦ rw (miss, any-write id j o rows) refl
  ]

  write-HasUniqueIds :
      (id : String) (o : Operation) (rows : List Row)
      → o.id ≡ id
      → HasUniqueIds rows
      → HasUniqueIds (write node id o rows)
  unfolding write
  write-HasUniqueIds id o [] i u = tt
  write-HasUniqueIds id o (r ∷ rows) i (same, other, u) =
      let rest = write-HasUniqueIds id o rows i u in
      elim (Bool-cases (at_id node id r)) [
        | inl hit ↦
            rw (hit, any-write id r.id o rows) (ground (arith, i, eq_iff r.id id), other, rest)
        | inr miss ↦ rw (miss, any-write id r.id o rows) (same, other, rest)
      ]

  pub write-Extends :
      (id : String) (old o : Operation) (rows : List Row)
      → find node id rows ≡ some old
      → SameRequest old o
      → Extends node rows (write node id o rows)
  write-Extends id old o rows found s = record {
    unique = λ u. write-HasUniqueIds id o rows (s.id ∙ find-id id rows old u found) u;
    kept = λ j a e. elim (Bool-cases (str_eq id j)) [
      | inl same ↦
          let here : id ≡ j = (eq_iff id j).0 same in
          let agree : old ≡ a = ground (arith, found, e, here) in
          (o, rw (find-write node id j o rows, same, e) refl, rw (← agree) s)
      | inr other ↦ (a, rw (find-write node id j o rows, other) e, SameRequest-refl a)
    ];
    key_kept = λ credential key row e. find_key-write id credential key o rows row e;
  }
