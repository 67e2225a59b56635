-- ===== src/Legacy/Reports.antt =====
-- The parsers of CLI output in ami_client.py: `_parse_stats_response`, `_parse_nodes_response` and
-- `_parse_variables_response`, for the field "Output" of an answer.

use asl3_api.Prelude.{
  ℕ, String, code, Bool, not, ◌&&◌, ◌||◌, Option, none, some, List, [], ◌∷◌, ◌++◌, codes, split,
  partition, is_empty, str_eq, ◌==◌, if◌then◌else◌,
}
use asl3_api.Config.{ℤ}
use asl3_api.Software.{strip}
use asl3_api.Transport.{Field, starts, is_infix}
use asl3_api.Legacy.Output.{field_texts}
use asl3_api.Legacy.Durations.{Duration, parse_uptime, parse_tx_time, int_of}

-- A number, or the text that is none.
pub data Count : Type 0 where
  number : ℤ → Count
  text : String → Count

pub record Stats : Type 0 where
  pub uptime : Option Duration
  pub keyups_today : Option Count
  pub keyups_total : Option Count
  pub kerchunks_today : Option Count
  pub kerchunks_total : Option Count
  pub dtmf_commands_today : Option Count
  pub dtmf_commands_total : Option Count
  pub tx_time_today : Option Duration
  pub tx_time_total : Option Duration
  pub last_dtmf_command : Option String

abbrev pub no_stats : Stats
no_stats = record {
  uptime = none;
  keyups_today = none;
  keyups_total = none;
  kerchunks_today = none;
  kerchunks_total = none;
  dtmf_commands_today = none;
  dtmf_commands_total = none;
  tx_time_today = none;
  tx_time_total = none;
  last_dtmf_command = none;
}

-- `text.rstrip(".")`
unfoldable pub without_dots : String → String
without_dots String.[] = ""
without_dots (String.◌∷◌ c s) =
    let rest = without_dots s in if code c == b'.' && is_empty rest then "" else String.◌∷◌ c rest

-- A node of `rpt nodes`, with its mode T, M, R or none; its "info" is empty.
pub record ConnectedNode : Type 0 where
  pub node : String
  pub mode : String

abbrev is_mode : ℕ → Bool
is_mode n = n == b'T' || (n == b'M' || n == b'R')

abbrev pub node_of : String → ConnectedNode
node_of String.[] = record { node = ""; mode = "" }
node_of (String.◌∷◌ c s) =
    if is_mode (code c)
    then record { node = s; mode = String.◌∷◌ c "" }
    else record { node = String.◌∷◌ c s; mode = "" }

unfoldable pub nodes_of : List String → List ConnectedNode
unfolding strip
nodes_of [] = []
nodes_of (entry ∷ entries) =
    let rest = nodes_of entries in
    if is_empty (node_of (strip entry)).node then rest else node_of (strip entry) ∷ rest

abbrev pub is_skipped : String → Bool
is_skipped line =
    is_empty line || (starts (codes "*") (codes line) || is_infix (codes "<NONE>") (codes line))

unfoldable pub nodes_in : List String → List ConnectedNode
unfolding nodes_of
nodes_in [] = []
nodes_in (line ∷ lines) =
    let rest = nodes_in lines in
    if is_skipped (strip line) then rest else nodes_of (split b',' (strip line)) ++ rest

-- `_parse_nodes_response`
unfoldable pub parse_nodes_response : Option Field → List ConnectedNode
unfolding nodes_in
parse_nodes_response output = nodes_in (field_texts output)

pub record ShownVariables : Type 0 where
  pub rxkeyed : Option Bool
  pub txkeyed : Option Bool
  pub ext_txkeyed : Option Bool
  pub num_links : Option Count
  pub links : Option String
  pub num_active_links : Option Count
  pub active_links : Option String
  pub autopatch_up : Option Bool

abbrev pub no_variables : ShownVariables
no_variables = record {
  rxkeyed = none;
  txkeyed = none;
  ext_txkeyed = none;
  num_links = none;
  links = none;
  num_active_links = none;
  active_links = none;
  autopatch_up = none;
}

-- "0" stands for an empty list of links.
abbrev pub list_text : String → Option String
list_text val = if not (is_empty val) && not (str_eq val "0") then some val else none

module _ (digit : ℕ → Option ℕ) where
  abbrev counted : String → Option ℤ → Count
  counted val none = text val
  counted val (some n) = number n

  -- `int(val)`, or the text.
  unfoldable pub count_of : String → Count
  count_of val = counted val (int_of digit val)

  abbrev pub set_stat : String → String → Stats → Stats
  set_stat key val stats =
      if str_eq key "Uptime"
      then record stats { uptime = some (parse_uptime digit val) }
      else if str_eq key "Keyups today"
      then record stats { keyups_today = some (count_of val) }
      else if str_eq key "Keyups since system initialization"
      then record stats { keyups_total = some (count_of val) }
      else if str_eq key "Kerchunks today"
      then record stats { kerchunks_today = some (count_of val) }
      else if str_eq key "Kerchunks since system initialization"
      then record stats { kerchunks_total = some (count_of val) }
      else if str_eq key "DTMF commands today"
      then record stats { dtmf_commands_today = some (count_of val) }
      else if str_eq key "DTMF commands since system initialization"
      then record stats { dtmf_commands_total = some (count_of val) }
      else if str_eq key "TX time today"
      then record stats { tx_time_today = some (parse_tx_time digit val) }
      else if str_eq key "TX time since system initialization"
      then record stats { tx_time_total = some (parse_tx_time digit val) }
      else if str_eq key "Last DTMF command executed"
      then record stats { last_dtmf_command = if str_eq val "N/A" then none else some val }
      else stats

  abbrev pub add_stat : Option (String × String) → Stats → Stats
  add_stat none stats = stats
  add_stat (some (key, val)) stats =
      if is_empty (strip val) then stats else set_stat (without_dots (strip key)) (strip val) stats

  unfoldable pub read_stats : List String → Stats → Stats
  unfolding strip without_dots count_of
  read_stats [] stats = stats
  read_stats (line ∷ lines) stats = read_stats lines (add_stat (partition b':' (strip line)) stats)

  -- `_parse_stats_response`, without the node, the callsign and the raw output that it adds.
  unfoldable pub parse_stats_response : Option Field → Stats
  unfolding read_stats
  parse_stats_response output = read_stats (field_texts output) no_stats

  abbrev pub set_variable : String → String → ShownVariables → ShownVariables
  set_variable key val v =
      if str_eq key "RPT_RXKEYED"
      then record v { rxkeyed = some (str_eq val "1") }
      else if str_eq key "RPT_TXKEYED"
      then record v { txkeyed = some (str_eq val "1") }
      else if str_eq key "RPT_ETXKEYED"
      then record v { ext_txkeyed = some (str_eq val "1") }
      else if str_eq key "RPT_AUTOPATCHUP"
      then record v { autopatch_up = some (str_eq val "1") }
      else if str_eq key "RPT_NUMLINKS"
      then record v { num_links = some (count_of val) }
      else if str_eq key "RPT_NUMALINKS"
      then record v { num_active_links = some (count_of val) }
      else if str_eq key "RPT_LINKS"
      then record v { links = list_text val }
      else if str_eq key "RPT_ALINKS"
      then record v { active_links = list_text val }
      else v

  abbrev pub add_variable : Option (String × String) → ShownVariables → ShownVariables
  add_variable none v = v
  add_variable (some (key, val)) v = set_variable (strip key) (strip val) v

  unfoldable pub read_variables : List String → ShownVariables → ShownVariables
  unfolding strip count_of
  read_variables [] v = v
  read_variables (line ∷ lines) v =
      read_variables lines (add_variable (partition b'=' (strip line)) v)

  -- `_parse_variables_response`
  unfoldable pub parse_variables_response : Option Field → ShownVariables
  unfolding read_variables
  parse_variables_response output = read_variables (field_texts output) no_variables
