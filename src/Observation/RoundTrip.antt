-- ===== src/Observation/RoundTrip.antt =====
-- RPT_ALINKS as app_rpt prints it, read back by `parse_alinks`.
use Prim.Native.String
use asl3_api.Prelude.{
  suc, ◌+◌, String, Char, Bool, true, false, some, [], ◌∷◌, ◌++◌, map, length, All, Dict, get, has,
  split, join, all_chars, count, is_digit, is_empty, str_eq, eq_refl, eq_iff, ◌==◌, ◌≡◌, refl, ap,
  ◌∙◌, sym, arith, Bool-cases, inl, inr, is_plain, split-join, put_new, has-append, snoc-append,
  append_nil, all_chars-append, all_chars_mono, cons-append, nil-append,
}
use asl3_api.Errors.{ok}
use asl3_api.Models.{LinkMode, letter_t, letter_r, letter_l, letter_c, unknown}
use asl3_api.Observation.{is_name_char, is_link_name, safe_name, number_from}
use asl3_api.Observation.Alinks.{
  Alink, is_count, mode_letter, keyed_letter, cut, read_letters, add_entry, add_token, add_tokens,
  add_all, parse_texts, parse_alinks,
}

abbrev pub mode_char : LinkMode → Char
mode_char letter_t = "T"
mode_char letter_r = "R"
mode_char letter_l = "L"
mode_char letter_c = "C"
mode_char unknown = "?"

abbrev pub keyed_char : Bool → Char
keyed_char true = "K"
keyed_char false = "U"

abbrev letters : Alink → String
letters a = String.◌∷◌ (mode_char a.mode) (String.◌∷◌ (keyed_char a.keyed) "")

-- An entry of the variable, and the variable, with the number of the entries as `count`.
abbrev pub print_entry : String × Alink → String
print_entry (name, a) = String.◌++◌ name (letters a)

abbrev pub print_alinks : String → Dict Alink → String
print_alinks count [] = ""
print_alinks count (e ∷ es) = join "," (count ∷ map print_entry (e ∷ es))

abbrev is_letter : LinkMode → Bool
is_letter unknown = false
is_letter _ = true

-- A name that `_safe_name` takes, with a mode that has a letter.
abbrev pub IsEntry : String × Alink → Type 0
IsEntry (name, a) = (safe_name name ≡ ok name) × (is_letter a.mode ≡ true)

abbrev pub HasDistinctNames : Dict Alink → Type 0
HasDistinctNames [] = Unit
HasDistinctNames ((name, a) ∷ es) = (has es name ≡ false) × HasDistinctNames es

-- The two letters are cut off.
cut_lem :
    (m k : Char) (s : String)
    → (a : Char) × (b : Char) × (r : String) × (String.◌++◌ s (String.◌∷◌ m (String.◌∷◌ k ""))
        ≡ String.◌∷◌ a (String.◌∷◌ b r))
      × (cut a b r ≡ (s, m, k))
cut_lem m k String.[] = (m, k, "", nil-append _, refl)
cut_lem m k (String.◌∷◌ c s) =
    let (a, b, r, e, h) = cut_lem m k s in
    (
      c,
      a,
      String.◌∷◌ b r,
      cons-append c s _ ∙ ap (String.◌∷◌ c) e,
      ap (λ (q : String × Char × Char). (String.◌∷◌ c q.0, q.1, q.2)) h,
    )

add_token-print :
    (c : Char) (s : String) (a : Alink) (result : Dict Alink)
    → add_token (print_entry (String.◌∷◌ c s, a)) result
      ≡ add_entry (String.◌∷◌ c s, mode_char a.mode, keyed_char a.keyed) result
unfolding add_token
add_token-print c s a result =
    let (x, y, r, e, h) = cut_lem (mode_char a.mode) (keyed_char a.keyed) s in
    ap (λ t. add_token t result) (cons-append c s _ ∙ ap (String.◌∷◌ c) e)
    ∙ ap (λ (q : String × Char × Char). add_entry (String.◌∷◌ c q.0, q.1, q.2) result) h

letters_read :
    (a : Alink)
    → is_letter a.mode ≡ true
    → read_letters (mode_letter (mode_char a.mode)) (keyed_letter (keyed_char a.keyed)) ≡ ok a
unfolding read_letters
letters_read a h = by_parts a.mode a.keyed h
  where
    by_parts :
        (m : LinkMode) (k : Bool)
        → is_letter m ≡ true
        → read_letters (mode_letter (mode_char m)) (keyed_letter (keyed_char k))
          ≡ ok (record { mode = m; keyed = k })
    by_parts letter_t true h = refl
    by_parts letter_t false h = refl
    by_parts letter_r true h = refl
    by_parts letter_r false h = refl
    by_parts letter_l true h = refl
    by_parts letter_l false h = refl
    by_parts letter_c true h = refl
    by_parts letter_c false h = refl
    by_parts unknown k h = absurd (ground arith)

add_entry-print :
    (name : String) (a : Alink) (result : Dict Alink)
    → IsEntry (name, a)
    → has result name ≡ false
    → add_entry (name, mode_char a.mode, keyed_char a.keyed) result ≡ ok (result ++ (name, a) ∷ [])
unfolding add_entry
add_entry-print name a result (safe, letter) fresh =
    rw (safe, letters_read a letter, fresh, put_new result name a fresh) refl

safe_name-cons :
    (name : String)
    → safe_name name ≡ ok name
    → (all_chars is_name_char name ≡ true) × (is_empty name ≡ false)
unfolding safe_name is_link_name count
safe_name-cons String.[] h = absurd (ground arith)
safe_name-cons (String.◌∷◌ c s) h = (ground arith, refl)

fresh_after :
    (es result : Dict Alink) (name : String) (a : Alink)
    → has es name ≡ false
    → All (λ e. has result e.0 ≡ false) es
    → All (λ e. has (result ++ (name, a) ∷ []) e.0 ≡ false) es
unfolding get
fresh_after [] result name a h fresh = tt
fresh_after ((j, b) ∷ es) result name a h fresh = elim (Bool-cases (str_eq j name)) [
  | inl same ↦ absurd (ground (arith, same))
  | inr other ↦ (
    has-append result name j a fresh.0 (ground (arith, other, eq_iff j name, eq_iff name j)),
    fresh_after es result name a (ground (arith, other)) fresh.1,
  )
]

one_token :
    (name : String) (a : Alink) (result : Dict Alink)
    → IsEntry (name, a)
    → has result name ≡ false
    → add_token (print_entry (name, a)) result ≡ ok (result ++ (name, a) ∷ [])
one_token String.[] a result entry fresh = absurd (ground (arith, safe_name-cons "" entry.0))
one_token (String.◌∷◌ c s) a result entry fresh =
    add_token-print c s a result ∙ add_entry-print (String.◌∷◌ c s) a result entry fresh

add_tokens-print :
    (es result : Dict Alink)
    → All IsEntry es
    → HasDistinctNames es
    → All (λ e. has result e.0 ≡ false) es
    → add_tokens (map print_entry es) result ≡ ok (result ++ es)
unfolding add_tokens
add_tokens-print [] result entries distinct fresh = ap ok (sym (append_nil result))
add_tokens-print ((name, a) ∷ es) result entries distinct fresh =
    rw (one_token name a result entries.0 fresh.0, ← snoc-append result (name, a) es)
      (add_tokens-print es (result ++ (name, a) ∷ []) entries.1 distinct.1
        (fresh_after es result name a distinct.0 fresh.1))

is_plain-entry : (e : String × Alink) → IsEntry e → all_chars is_plain (print_entry e) ≡ true
unfolding all_chars
is_plain-entry (name, a) entry =
    all_chars-append is_plain name (letters a)
      (all_chars_mono is_name_char is_plain (λ n h. ground arith) name
        (safe_name-cons name entry.0).0)
      (plain_letters a.mode a.keyed)
  where
    plain_letters :
        (m : LinkMode) (k : Bool)
        → all_chars is_plain (String.◌∷◌ (mode_char m) (String.◌∷◌ (keyed_char k) "")) ≡ true
    plain_letters letter_t true = refl
    plain_letters letter_t false = refl
    plain_letters letter_r true = refl
    plain_letters letter_r false = refl
    plain_letters letter_l true = refl
    plain_letters letter_l false = refl
    plain_letters letter_c true = refl
    plain_letters letter_c false = refl
    plain_letters unknown true = refl
    plain_letters unknown false = refl

plain_entries :
    (es : Dict Alink) → All IsEntry es → All (λ p. all_chars is_plain p ≡ true) (map print_entry es)
plain_entries [] h = tt
plain_entries (e ∷ es) h = (is_plain-entry e h.0, plain_entries es h.1)

is_count-plain : (count : String) → is_count count ≡ true → all_chars is_plain count ≡ true
unfolding is_count all_chars
is_count-plain String.[] h = refl
is_count-plain (String.◌∷◌ c String.[]) h = ground arith
is_count-plain (String.◌∷◌ c (String.◌∷◌ d s)) h =
    ground (arith, all_chars_mono is_digit is_plain (λ n h. ground arith) (String.◌∷◌ d s))

length-print : (es : Dict Alink) → length (map print_entry es) ≡ length es
length-print [] = refl
length-print (e ∷ es) = ap suc (length-print es)

All-of_empty : (es : Dict Alink) → All (λ e. has {V = Alink} [] e.0 ≡ false) es
unfolding get
All-of_empty [] = tt
All-of_empty (e ∷ es) = (refl, All-of_empty es)

-- ALINKS is read back: the printed entries, with safe and distinct names, and a count that is the
-- decimal number of them, are what `parse_alinks` returns.
pub parse_alinks-print :
    (count : String) (es : Dict Alink)
    → is_count count ≡ true
    → number_from 0 count ≡ length es
    → All IsEntry es
    → HasDistinctNames es
    → parse_alinks (some (print_alinks count es)) (some count) ≡ ok es
unfolding parse_alinks parse_texts add_all
parse_alinks-print count [] c n entries distinct = rw (c, n) refl
parse_alinks-print count (e ∷ es) c n entries distinct =
    let parts : split b',' (print_alinks count (e ∷ es)) ≡ count ∷ map print_entry (e ∷ es) =
      split-join count (map print_entry (e ∷ es))
        (is_count-plain count c, plain_entries (e ∷ es) entries) in
    let some_entries : (length (e ∷ es) == 0) ≡ false = ground arith in
    let counted : (length (count ∷ map print_entry (e ∷ es)) == number_from 0 count + 1) ≡ true =
      ground (arith, length-print es, n) in
    rw (c, n, some_entries, parts, eq_refl count, counted)
      (add_tokens-print (e ∷ es) [] entries distinct (All-of_empty (e ∷ es)))
