-- ===== src/Legacy/Durations.antt =====
-- `_parse_tx_time` and `_parse_uptime` of ami_client.py, and Python's `int` of a text. `digit` is the
-- value of a decimal digit of Unicode, which `\d` matches and `int` reads.

use asl3_api.Prelude.{
  ℕ, suc, ◌+◌, ◌*◌, String, code, show, Bool, true, false, not, ◌&&◌, ◌||◌, Option, none, some,
  List, [], ◌∷◌, ◌++◌, count, format, join, split, is_empty, is_digit, ◌-◌, ◌==◌, if◌then◌else◌,
  ◌≡◌, refl,
}
use asl3_api.Config.{ℤ, pos, negsuc}
use asl3_api.Software.{strip, strip_right}

-- The fields "raw", "seconds" and "display".
pub record Duration : Type 0 where
  pub raw : String
  pub seconds : Option ℕ
  pub display : String

abbrev pub unread : String → Duration
unread raw = record { raw = raw; seconds = none; display = raw }

abbrev pub unit_text : ℕ → String → String
unit_text n unit = format (show n ∷ unit ∷ [])

-- `parts.append(...)` under a test.
abbrev pub when : Bool → String → List String
when test text = if test then text ∷ [] else []

abbrev pub is_some_of : ℕ → Bool
is_some_of n = not (n == 0)

-- The text of a time: the units before the first that is not zero are left out.
unfoldable pub tx_display : (hours minutes secs : ℕ) → String
unfolding show
tx_display hours minutes secs = join " " (
    when (is_some_of hours) (unit_text hours "h")
    ++ when (is_some_of minutes || is_some_of hours) (unit_text minutes "m")
    ++ unit_text secs "s" ∷ [])

unfoldable pub uptime_display : (days hours minutes secs : ℕ) → String
unfolding show
uptime_display days hours minutes secs = join " " (
    when (is_some_of days) (unit_text days "d")
    ++ when (is_some_of hours || is_some_of days) (unit_text hours "h")
    ++ when (is_some_of minutes || (is_some_of hours || is_some_of days)) (unit_text minutes "m")
    ++ unit_text secs "s" ∷ [])

module _ (digit : ℕ → Option ℕ) where
  -- A text of digits behind `n`.
  unfoldable pub digits_from : String → ℕ → Option ℕ
  digits_from String.[] n = some n
  digits_from (String.◌∷◌ c s) n = elim (digit (code c)) [
    | none ↦ none
    | some d ↦ digits_from s (n * 10 + d)
  ]

  -- `(\d+)` and `(\d{2})`, with the number of the group.
  unfoldable pub some_digits : String → Option ℕ
  unfolding digits_from
  some_digits s = if is_empty s then none else digits_from s 0

  unfoldable pub two_digits : String → Option ℕ
  unfolding digits_from
  two_digits s = if count s == 2 then digits_from s 0 else none

  abbrev pub all_read : List (Option ℕ) → Option (List ℕ)
  all_read [] = some []
  all_read (o ∷ os) = cons_read o (all_read os)
    where
      cons_read : Option ℕ → Option (List ℕ) → Option (List ℕ)
      cons_read (some n) (some ns) = some (n ∷ ns)
      cons_read _ _ = none

  -- The groups of the patterns. No group has a colon, so the text is cut at its colons.
  unfoldable pub tx_groups : List String → Option (List ℕ)
  unfolding some_digits two_digits
  tx_groups (h ∷ m ∷ s ∷ ms ∷ []) =
      all_read (some_digits h ∷ two_digits m ∷ two_digits s ∷ some_digits ms ∷ [])
  tx_groups _ = none

  unfoldable pub uptime_groups : List String → Option (List ℕ)
  unfolding some_digits two_digits
  uptime_groups (d ∷ h ∷ m ∷ s ∷ []) =
      all_read (some_digits d ∷ two_digits h ∷ two_digits m ∷ two_digits s ∷ [])
  uptime_groups (h ∷ m ∷ s ∷ []) =
      all_read (some 0 ∷ some_digits h ∷ two_digits m ∷ two_digits s ∷ [])
  uptime_groups _ = none

  abbrev pub tx_time : String → Option (List ℕ) → Duration
  tx_time raw (some (hours ∷ minutes ∷ secs ∷ ms ∷ [])) = record {
    raw = raw;
    seconds = some (hours * 3600 + minutes * 60 + secs);
    display = tx_display hours minutes secs;
  }
  tx_time raw _ = unread raw

  unfoldable pub parse_tx_time : String → Duration
  unfolding tx_groups
  parse_tx_time raw = tx_time (strip raw) (tx_groups (split b':' (strip raw)))

  abbrev pub uptime : String → Option (List ℕ) → Duration
  uptime raw (some (days ∷ hours ∷ minutes ∷ secs ∷ [])) = record {
    raw = raw;
    seconds = some (days * 86400 + hours * 3600 + minutes * 60 + secs);
    display = uptime_display days hours minutes secs;
  }
  uptime raw _ = unread raw

  unfoldable pub parse_uptime : String → Duration
  unfolding uptime_groups
  parse_uptime raw = uptime (strip raw) (uptime_groups (split b':' (strip raw)))

  -- `int(text)`: digits with single underscores between them. `fresh` is true where a digit must come.
  unfoldable pub int_from : String → (fresh : Bool) → ℕ → Option ℕ
  int_from String.[] fresh n = if fresh then none else some n
  int_from (String.◌∷◌ c s) fresh n = elim (digit (code c)) [
    | some d ↦ int_from s false (n * 10 + d)
    | none ↦ if code c == b'_' && not fresh then int_from s true n else none
  ]

  abbrev pub signed : Bool → Option ℕ → Option ℤ
  signed negative none = none
  signed true (some (suc n)) = some (negsuc n)
  signed negative (some n) = some (pos n)

  abbrev pub int_body : String → Option ℤ
  int_body String.[] = none
  int_body (String.◌∷◌ c s) =
      if code c == b'-'
      then signed true (int_from s true 0)
      else if code c == b'+'
      then signed false (int_from s true 0)
      else signed false (int_from (String.◌∷◌ c s) true 0)

  -- A `ValueError` is none.
  unfoldable pub int_of : String → Option ℤ
  unfolding int_from
  int_of text = int_body (strip text)

abbrev pub ascii_digit : ℕ → Option ℕ
ascii_digit n = if is_digit n then some (n - b'0') else none

parse_uptime_test :
    parse_uptime ascii_digit " 2:14:33:05 "
    ≡ record { raw = "2:14:33:05"; seconds = some 225185; display = "2d 14h 33m 5s" }
unfolding parse_uptime uptime_display show split strip strip_right count format join
parse_uptime_test = refl

parse_tx_time_test :
    parse_tx_time ascii_digit "00:02:14:30"
    ≡ record { raw = "00:02:14:30"; seconds = some 134; display = "2m 14s" }
unfolding parse_tx_time tx_display show split strip strip_right count format join
parse_tx_time_test = refl

int_of_test : int_of ascii_digit " -1_0 " ≡ some (negsuc 9)
unfolding int_of strip strip_right
int_of_test = refl
