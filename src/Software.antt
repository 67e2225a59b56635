-- ===== src/Software.antt =====
-- vnext/software.py: the versions that two read-only AMI reads show.
pub mod Laws
use Prim.Native.String
use asl3_api.Prelude.{
  ℕ, suc, ◌+◌, String, code, Bool, true, false, not, ◌&&◌, ◌||◌, Option, none, some, List, [], ◌∷◌,
  any, codes, all, get, split, count, all_chars, is_digit, is_empty, is_some, str_eq, leb, ltb,
  ◌==◌, if◌then◌else◌, ◌≡◌, refl, arith,
}
use asl3_api.Transport.{Field, one, many, Message}
use asl3_api.Transport.Frame.{is_space_char}

-- `_scalar` of a field.
unfoldable pub text_of : Option Field → Option String
text_of (some (one s)) = if is_empty s then none else some s
text_of _ = none

-- `_scalar`; a response that is no mapping is `none`.
unfoldable pub scalar : Option Message → String → Option String
unfolding text_of
scalar none key = none
scalar (some m) key = text_of (get m key)

unfoldable pub strip_right : String → String
strip_right String.[] = ""
strip_right (String.◌∷◌ c s) =
    let rest = strip_right s in
    if is_space_char (code c) && is_empty rest then "" else String.◌∷◌ c rest

unfoldable pub strip : String → String
unfolding strip_right
strip String.[] = ""
strip (String.◌∷◌ c s) =
    let rest = strip s in if is_space_char (code c) then rest else strip_right (String.◌∷◌ c s)

unfoldable pub stripped : List String → List String
unfolding strip
stripped [] = []
stripped (line ∷ lines) =
    let rest = stripped lines in if is_empty (strip line) then rest else strip line ∷ rest

abbrev field_lines : Option Field → List String
field_lines none = []
field_lines (some (one s)) = s ∷ []
field_lines (some (many ss)) = ss

-- `_output_lines`
unfoldable pub output_lines : Option Message → Option (List String)
unfolding stripped
output_lines none = none
output_lines (some m) = some (stripped (field_lines (get m "output")))

-- `[.+~:_-]`
abbrev pub is_separator : ℕ → Bool
is_separator n = any (λ c. n == c) (codes ".+~:_-")

abbrev pub is_tail_char : ℕ → Bool
is_tail_char n =
    is_digit n || (leb b'A' n && leb n b'Z') || (leb b'a' n && leb n b'z') || is_separator n

abbrev is_tail : String → Bool
is_tail s = all_chars is_tail_char s && leb (count s) 40

-- `ASTERISK_VERSION_PATTERN` from inside a run of `digits` digits; `dotted` says that a dot came
-- before the run. A run is taken whole, since nothing else in the pattern begins with a digit.
unfoldable pub matches_from : (dotted : Bool) (digits : ℕ) → String → Bool
matches_from dotted digits String.[] = dotted && leb 1 digits
matches_from dotted digits (String.◌∷◌ c s) =
    let within = matches_from dotted (suc digits) s in
    let next = matches_from true 0 s in
    if is_digit (code c)
    then ltb digits 4 && within
    else (leb 1 digits && is_separator (code c))
      && (((code c == b'.') && next) || (dotted && is_tail s))

-- `ASTERISK_VERSION_PATTERN.fullmatch(version)`
unfoldable pub is_asterisk_version : String → Bool
unfolding matches_from
is_asterisk_version s = matches_from false 0 s

abbrev checked : Option String → Option String
checked none = none
checked (some v) = if is_asterisk_version v then some v else none

abbrev is_success : Option String → Bool
is_success none = false
is_success (some s) = str_eq s "Success"

unfoldable pub parse_asterisk_version : Option Message → Option String
unfolding scalar is_asterisk_version
parse_asterisk_version response =
    if is_success (scalar response "response")
    then checked (scalar response "asteriskversion")
    else none

-- What stands behind a prefix.
unfoldable pub behind : List ℕ → String → Option String
behind [] s = some s
behind (p ∷ ps) String.[] = none
behind (p ∷ ps) (String.◌∷◌ c s) = let rest = behind ps s in if p == code c then rest else none

abbrev is_number : String → Bool
is_number s = all_chars is_digit s && (leb 1 (count s) && leb (count s) 4)

abbrev are_three : List String → Bool
are_three (a ∷ b ∷ c ∷ []) = is_number a && (is_number b && is_number c)
are_three _ = false

abbrev three_numbers : Option String → Option String
three_numbers none = none
three_numbers (some v) = if are_three (split b'.' v) then some v else none

-- Group 1 of `APP_RPT_VERSION_PATTERN.fullmatch(line)`
unfoldable pub app_rpt_group : String → Option String
unfolding behind
app_rpt_group line = three_numbers (behind (codes "app_rpt version: ") line)

abbrev only_line : Option (List String) → Option String
only_line (some (line ∷ [])) = app_rpt_group line
only_line _ = none

unfoldable pub parse_app_rpt_version : Option Message → Option String
unfolding scalar output_lines app_rpt_group
parse_app_rpt_version response =
    if is_success (scalar response "response") then only_line (output_lines response) else none

-- `_entry`
pub record Entry : Type 0 where
  pub version : Option String
  pub detected : Bool
  pub source : String

abbrev pub make_entry : Option String → String → Entry
make_entry version source = record {
  version = version;
  detected = is_some version;
  source = source;
}

-- `evidence`: the entries of "asterisk" and "app_rpt".
abbrev pub evidence : Option Message → Option Message → Entry × Entry
evidence asterisk app_rpt = (
  make_entry (parse_asterisk_version asterisk) "ami:CoreSettings/AsteriskVersion",
  make_entry (parse_app_rpt_version app_rpt) "ami:Command/rpt show version",
)

abbrev pub undetected : Entry × Entry
undetected = evidence none none
