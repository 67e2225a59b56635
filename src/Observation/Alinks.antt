-- ===== src/Observation/Alinks.antt =====
-- `parse_alinks` of vnext/observation.py: the variables RPT_ALINKS and RPT_NUMALINKS.
use asl3_api.Prelude.{
  ◌+◌, String, Char, code, Bool, true, false, not, ◌&&◌, ◌||◌, Option, none, some, List, [], ◌∷◌,
  Dict, put, has, split, length, all_chars, leb, ◌==◌, is_digit, str_eq, is_empty, if◌then◌else◌,
}
use asl3_api.Errors.{type_error, value_error, Result, ok, err, ◌>>◌, ◌>>=◌, raise_if}
use asl3_api.Models.{LinkMode, letter_t, letter_r, letter_l, letter_c}
use asl3_api.Observation.{safe_name, number_from}

pub record Alink : Type 0 where
  pub mode : LinkMode
  pub keyed : Bool

-- `re.fullmatch(r"0|[1-9][0-9]*", count)`
unfoldable pub is_count : String → Bool
is_count String.[] = false
is_count (String.◌∷◌ c s) =
    (code c == b'0' && is_empty s)
    || ((leb b'1' (code c) && leb (code c) b'9') && all_chars is_digit s)

abbrev pub mode_letter : Char → Option LinkMode
mode_letter c =
    if code c == b'T'
    then some letter_t
    else if code c == b'R'
    then some letter_r
    else if code c == b'L'
    then some letter_l
    else if code c == b'C'
    then some letter_c
    else none

abbrev pub keyed_letter : Char → Option Bool
keyed_letter c = if code c == b'K' then some true else if code c == b'U' then some false else none

-- `token[:-2], token[-2], token[-1]` of the token with the characters `a` and `b` before `s`.
abbrev pub cut : Char → Char → String → String × Char × Char
cut a b String.[] = ("", a, b)
cut a b (String.◌∷◌ c s) = let (name, mode, keyed) = cut b c s in (String.◌∷◌ a name, mode, keyed)

unfoldable pub read_letters : Option LinkMode → Option Bool → Result Alink
read_letters (some mode) (some keyed) = ok (record { mode = mode; keyed = keyed })
read_letters _ _ = err (value_error "Malformed ALINKS mode/key state")

unfoldable pub add_entry : String × Char × Char → Dict Alink → Result (Dict Alink)
unfolding read_letters safe_name
add_entry (name, mode, keyed) result = do
  _ ← safe_name name
  alink ← read_letters (mode_letter mode) (keyed_letter keyed)
  raise_if (has result name) (value_error "Duplicate ALINKS entry")
  ok (put result name alink)

-- One round of the loop over the tokens.
unfoldable pub add_token : String → Dict Alink → Result (Dict Alink)
unfolding add_entry
add_token (String.◌∷◌ a (String.◌∷◌ b (String.◌∷◌ c s))) result =
    add_entry (cut a b (String.◌∷◌ c s)) result
add_token _ result = err (value_error "Malformed ALINKS entry")

unfoldable pub add_tokens : List String → Dict Alink → Result (Dict Alink)
unfolding add_token
add_tokens [] result = ok result
add_tokens (token ∷ tokens) result = add_token token result >>= add_tokens tokens

unfoldable pub add_all : String → List String → Result (Dict Alink)
unfolding add_tokens
add_all count [] = err (value_error "Truncated or inconsistent ALINKS")
add_all count (first ∷ tokens) = do
  raise_if (not (str_eq first count) || not (length (first ∷ tokens) == number_from 0 count + 1))
      (value_error "Truncated or inconsistent ALINKS")
  add_tokens tokens []

unfoldable pub parse_texts : String → String → Result (Dict Alink)
unfolding is_count add_all
parse_texts value count = do
  raise_if (not (is_count count)) (value_error "Malformed ALINKS count")
  if number_from 0 count == 0
      then raise_if (not (is_empty value)) (value_error "ALINKS count/value mismatch") >> ok []
      else add_all count (split b',' value)

-- `parse_alinks`, on the results of `variables.get`.
unfoldable pub parse_alinks : Option String → Option String → Result (Dict Alink)
unfolding parse_texts
parse_alinks (some value) (some count) = parse_texts value count
parse_alinks _ _ = err (type_error "Missing ALINKS evidence")
