-- ===== src/Observation.antt =====
-- vnext/observation.py: the names of links, and the fields of an XStat or SawStat response.
pub mod Alinks
pub mod Native
pub mod Snapshot
pub mod Refusals
pub mod Laws
pub mod Evidence
pub mod Observer
pub mod Invalidated
pub mod RoundTrip
use asl3_api.Prelude.{
  ℕ, ◌+◌, ◌*◌, ◌-◌, String, code, Bool, true, false, not, ◌&&◌, ◌||◌, Option, none, some, List, [],
  ◌∷◌, format, all_chars, count, leb, ltb, ◌==◌, is_digit, is_empty, str_eq, cons_head,
  if◌then◌else◌,
}
use asl3_api.Errors.{value_error, Result, ok, err, ◌>>◌, ◌>>=◌, raise_if}
use asl3_api.Transport.{Field, one, many, Message, lower}
use asl3_api.Prelude.{codes}

-- `\s` of an ASCII pattern: tab to carriage return, and the space.
abbrev pub is_space : ℕ → Bool
is_space n = (leb 9 n && leb n 13) || n == b' '

-- A character of the class in `SAFE_LINK_NAME`.
abbrev pub is_name_char : ℕ → Bool
is_name_char n = (ltb b' ' n && not (n == 127)) && not (n == b',')

-- `SAFE_LINK_NAME.fullmatch(name)`
unfoldable pub is_link_name : String → Bool
is_link_name s = all_chars is_name_char s && (leb 1 (count s) && leb (count s) 64)

-- `_safe_name`
unfoldable pub safe_name : String → Result String
unfolding is_link_name
safe_name name =
    if not (is_link_name name)
    then err (value_error "Malformed adjacent-link identifier")
    else if str_eq name "000000"
    then err (value_error "Truncation sentinel in adjacent-link evidence")
    else ok name

-- `{str(k).lower(): v for k, v in response.items()}.get(key)`: the last of equal keys counts.
unfoldable pub field : List ℕ → Message → Option Field
unfolding lower
field key [] = none
field key ((k, v) ∷ rest) = prefer (field key rest) (if same (lower k) key then some v else none)
  where
    same : List ℕ → List ℕ → Bool
    same [] [] = true
    same (m ∷ ms) (n ∷ ns) = m == n && same ms ns
    same _ _ = false

    prefer : Option Field → Option Field → Option Field
    prefer (some w) v = some w
    prefer none v = v

unfoldable pub listed : Option Field → List String
listed none = []
listed (some (one s)) = s ∷ []
listed (some (many ss)) = ss

-- `_values`; every field of a message is a text or a list of texts.
unfoldable pub values : Message → String → List String
unfolding field listed
values message key = listed (field (codes key) message)

unfoldable pub only : String → List String → Result String
only key (v ∷ []) = ok v
only key _ = err (value_error (format ("Missing or repeated " ∷ key ∷ " field" ∷ [])))

-- `_scalar`
unfoldable pub scalar : Message → String → Result String
unfolding values only
scalar message key = only key (values message key)

-- `int(digits)`, without the interpreter's limit on the number of digits.
abbrev pub number_from : ℕ → String → ℕ
number_from n String.[] = n
number_from n (String.◌∷◌ c s) = number_from (n * 10 + (code c - b'0')) s

abbrev begins_space : String → Bool
begins_space String.[] = true
begins_space (String.◌∷◌ c s) = is_space (code c)

-- The parts that `\S+` can match between parts that `\s+` matches.
unfoldable pub words : String → List String
words String.[] = []
words (String.◌∷◌ c s) =
    let rest = words s in
    if is_space (code c)
    then rest
    else if begins_space s
    then String.◌∷◌ c "" ∷ rest
    else cons_head c rest

abbrev pub are_digits : String → Bool
are_digits s = all_chars is_digit s && not (is_empty s)
