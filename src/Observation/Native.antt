-- ===== src/Observation/Native.antt =====
-- `_parse_xstat`, `_parse_sawstat` and `parse_snapshot` of vnext/observation.py.
use asl3_api.Prelude.{
  partition, String, code, Bool, false, not, ◌&&◌, ◌||◌, Option, none, some, List, [], ◌∷◌, all,
  Dict, get, put, has, keys, codes, split, count, format, all_chars, leb, ◌==◌, is_digit, str_eq,
  is_empty, if◌then◌else◌,
}
use asl3_api.Errors.{value_error, Result, ok, err, ◌>>◌, ◌>>=◌, raise_if}
use asl3_api.Models.{ConnectionStatus, established, connecting}
use asl3_api.Transport.{Message, is_infix}
use asl3_api.Observation.{is_space, safe_name, values, scalar, words, are_digits}
use asl3_api.Observation.Alinks.{Alink, parse_alinks}

abbrev is_bit : Option String → Bool
is_bit (some v) = str_eq v "0" || str_eq v "1"
is_bit none = false

unfoldable pub add_variable : Option (String × String) → Dict String → Result (Dict String)
add_variable none variables = err (value_error "Malformed or duplicate XStat variable")
add_variable (some (key, value)) variables = do
  raise_if (is_empty key || has variables key) (value_error "Malformed or duplicate XStat variable")
  ok (put variables key value)

unfoldable pub add_variables : List String → Dict String → Result (Dict String)
unfolding add_variable partition
add_variables [] variables = ok variables
add_variables (row ∷ rows) variables =
    add_variable (partition b'=' row) variables >>= add_variables rows

-- `[0-5]\d`
abbrev pub is_sixty : String → Bool
is_sixty (String.◌∷◌ c (String.◌∷◌ d String.[])) =
    (leb b'0' (code c) && leb (code c) b'5') && is_digit (code d)
is_sixty _ = false

-- `\d{2,}:[0-5]\d:[0-5]\d`
unfoldable pub is_duration : List String → Bool
is_duration (h ∷ m ∷ s ∷ []) =
    (all_chars is_digit h && leb 2 (count h)) && (is_sixty m && is_sixty s)
is_duration _ = false

abbrev pub read_status : String → Option ConnectionStatus
read_status s =
    if str_eq s "ESTABLISHED"
    then some established
    else if str_eq s "CONNECTING"
    then some connecting
    else none

unfoldable pub begins_with_word : String → Bool
begins_with_word String.[] = false
begins_with_word (String.◌∷◌ c s) = not (is_space (code c))

-- Groups 1 and 6 of `XSTAT_CONN`, from the words of a row.
unfoldable pub xstat_groups : List String → Option (String × ConnectionStatus)
unfolding is_duration
xstat_groups (name ∷ ip ∷ reconnects ∷ direction ∷ time ∷ status ∷ []) =
    if (are_digits reconnects && (str_eq direction "IN" || str_eq direction "OUT"))
      && is_duration (split b':' time)
    then named name (read_status status)
    else none
  where
    named : String → Option ConnectionStatus → Option (String × ConnectionStatus)
    named n none = none
    named n (some s) = some (n, s)
xstat_groups _ = none

-- `XSTAT_CONN.fullmatch(row)`
unfoldable pub xstat_conn : String → Option (String × ConnectionStatus)
unfolding begins_with_word xstat_groups words
xstat_conn row = if begins_with_word row then xstat_groups (words row) else none

-- `-?\d+`
abbrev pub is_signed : String → Bool
is_signed String.[] = false
is_signed (String.◌∷◌ c s) = if code c == b'-' then are_digits s else are_digits (String.◌∷◌ c s)

unfoldable pub sawstat_groups : List String → Option (String × Bool)
sawstat_groups (name ∷ keyed ∷ key_time ∷ unkey_time ∷ []) =
    if (str_eq keyed "0" || str_eq keyed "1") && (is_signed key_time && is_signed unkey_time)
    then some (name, str_eq keyed "1")
    else none
sawstat_groups _ = none

-- `SAWSTAT_CONN.fullmatch(row)`
unfoldable pub sawstat_conn : String → Option (String × Bool)
unfolding begins_with_word sawstat_groups words
sawstat_conn row = if begins_with_word row then sawstat_groups (words row) else none

-- One round of a loop over the rows of `conn`, and the loop.
module _ {V : Type 0} (action : String) (conn : String → Option (String × V)) where
  unfoldable pub add_conn : Option (String × V) → Dict V → Result (Dict V)
  unfolding safe_name
  add_conn none found = err (value_error (format ("Malformed " ∷ action ∷ " Conn" ∷ [])))
  add_conn (some (name, v)) found = do
    _ ← safe_name name
    raise_if (has found name) (value_error (format ("Duplicate " ∷ action ∷ " Conn" ∷ [])))
    ok (put found name v)

  unfoldable pub add_conns : List String → Dict V → Result (Dict V)
  unfolding add_conn
  add_conns [] found = ok found
  add_conns (row ∷ rows) found = add_conn (conn row) found >>= add_conns rows

-- `set(a).issubset(b)`
abbrev pub is_subset {ℓ κ} : {V : Type ℓ} {W : Type κ} → Dict V → Dict W → Bool
is_subset a b = all (has b) (keys a)

abbrev text_or_empty : Option String → String
text_or_empty none = ""
text_or_empty (some s) = s

pub record Xstat : Type 0 where
  pub variables : Dict String
  pub connections : Dict ConnectionStatus
  pub alinks : Dict Alink

-- The last part of `_parse_xstat`, from the loop over `conn` on.
unfoldable pub read_connections : Message → Dict String → Result Xstat
unfolding values add_conns xstat_conn parse_alinks
read_connections response variables = do
  connections ← add_conns "XStat" xstat_conn (values response "conn") []
  alinks ← parse_alinks (get variables "RPT_ALINKS") (get variables "RPT_NUMALINKS")
  raise_if (not (is_subset alinks connections))
      (value_error "ALINKS names are not a subset of XStat direct connections")
  ok (record { variables = variables; connections = connections; alinks = alinks })

-- `_parse_xstat`
unfoldable pub parse_xstat : Message → String → Result Xstat
unfolding scalar values add_variables read_connections
parse_xstat response node = do
  answer ← scalar response "response"
  raise_if (not (str_eq answer "Success")) (value_error "XStat failed or node mismatch")
  of_node ← scalar response "node"
  raise_if (not (str_eq of_node node)) (value_error "XStat failed or node mismatch")
  variables ← add_variables (values response "var") []
  raise_if (not (is_bit (get variables "RPT_RXKEYED")))
      (value_error "Missing or malformed RPT_RXKEYED")
  raise_if (not (is_bit (get variables "RPT_TXKEYED")))
      (value_error "Missing or malformed RPT_TXKEYED")
  raise_if (is_infix (codes "000000") (codes (text_or_empty (get variables "RPT_LINKS"))))
      (value_error "Truncated RPT_LINKS")
  read_connections response variables

-- `_parse_sawstat`
unfoldable pub parse_sawstat : Message → String → Result (Dict Bool)
unfolding scalar values add_conns sawstat_conn
parse_sawstat response node = do
  answer ← scalar response "response"
  raise_if (not (str_eq answer "Success")) (value_error "SawStat failed or node mismatch")
  of_node ← scalar response "node"
  raise_if (not (str_eq of_node node)) (value_error "SawStat failed or node mismatch")
  add_conns "SawStat" sawstat_conn (values response "conn") []
