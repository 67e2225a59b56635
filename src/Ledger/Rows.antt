-- ===== src/Ledger/Rows.antt =====
-- The queries of the operations table against its writes.
use mathlib.Core.Option
use asl3_api.Prelude.{
  String, true, Option, none, some, List, [], ◌∷◌, ◌++◌, any, is_some, str_eq, eq_iff, false,
  if◌then◌else◌, ◌≡◌, refl, arith,
}
use asl3_api.Models.{Operation}
use asl3_api.Errors.{ok}
use asl3_api.Ledger.{Row, at_key, find, write, find_key, insert, violates}

abbrev pub or_else {ℓ} : {A : Type ℓ} → Option A → Option A → Option A
or_else none b = b
or_else (some a) b = some a

module _ (node : String) where
  -- A write replaces the document of its row, and of no other.
  pub find-write :
      (id j : String) (o : Operation) (rows : List Row)
      → find node j (write node id o rows)
        ≡ (if str_eq id j then Option.map (λ _. o) (find node j rows) else find node j rows)
  unfolding find write
  find-write id j o [] = ground (arith, eq_iff id j)
  find-write id j o (row ∷ rows) =
      ground (arith, eq_iff row.id id, eq_iff row.id j, eq_iff id j, find-write id j o rows)

  pub find-append :
      (j : String) (rows more : List Row)
      → find node j (rows ++ more) ≡ or_else (find node j rows) (find node j more)
  unfolding find
  find-append j [] more = refl
  find-append j (row ∷ rows) more = ground (arith, find-append j rows more)

  -- A row that is found has its id in the table.
  pub any-id_of_find :
      (j : String) (rows : List Row)
      → is_some (find node j rows) ≡ true
      → any (λ row. str_eq row.id j) rows ≡ true
  unfolding find
  any-id_of_find j [] h = h
  any-id_of_find j (row ∷ rows) h = ground (arith, any-id_of_find j rows)

  module _ (credential : String) (key : Option String) where
    pub find_key-append :
        (rows more : List Row)
        → find_key node credential key (rows ++ more)
          ≡ or_else (find_key node credential key rows) (find_key node credential key more)
    unfolding find_key
    find_key-append [] more = refl
    find_key-append (row ∷ rows) more = ground (arith, find_key-append rows more)

    -- A key that no row has does not violate the UNIQUE constraint.
    pub any-key_of_find_key :
        (rows : List Row)
        → find_key node credential key rows ≡ none
        → any (at_key node credential key) rows ≡ false
    unfolding find_key
    any-key_of_find_key [] h = refl
    any-key_of_find_key (row ∷ rows) h = ground (arith, any-key_of_find_key rows)

pub any-id_of_insert :
    (new : Row) (rows rows' : List Row)
    → insert new rows ≡ ok rows'
    → any (λ row. str_eq row.id new.id) rows ≡ false
unfolding insert
any-id_of_insert new rows rows' e = any_or rows (ground arith)
  where
    any_or :
        (rs : List Row) → violates new rs ≡ false → any (λ row. str_eq row.id new.id) rs ≡ false
    any_or [] h = refl
    any_or (r ∷ rs) h = ground (arith, any_or rs)
