-- ===== src/Agent/Audit.antt =====
-- `audit_log` and `get_audit_log` of asl_agent.py. The log is the text of its file, with the line ends
-- that `open` gives, or none while there is no file.
use Prim.Native.String
use asl3_api.Prelude.{
  zero, suc, ◌-◌, Char, String, code, Bool, Option, none, some, List, [], ◌∷◌, length, drop, codes,
  format, cons_head, is_empty, ltb, ◌==◌, if◌then◌else◌,
}
use asl3_api.Config.{ℤ, pos, negsuc}
use asl3_api.Software.{strip}
use asl3_api.Transport.{starts}
use asl3_api.Transport.Frame.{begins_lf}

abbrev pub entry_text : String → String → String → String
entry_text timestamp command details =
    format (timestamp ∷ " | " ∷ command ∷ " | " ∷ details ∷ "\n" ∷ [])

abbrev pub appended : Option String → String → String
appended none text = text
appended (some log) text = String.◌++◌ log text

-- `audit_log`, for whether the file can be written: a failure is only logged.
unfoldable pub audit_log :
    (writes : Bool) → (timestamp command details : String) → Option String → Option String
audit_log writes timestamp command details log =
    if writes then some (appended log (entry_text timestamp command details)) else log

-- The entry of `_capability_disabled`, which precedes its 503.
unfoldable pub log_refusal :
    (writes : Bool) → (timestamp capability attempt : String) → Option String → Option String
unfolding audit_log
log_refusal writes timestamp capability attempt =
    audit_log writes timestamp (format (capability ∷ "/rejected" ∷ []))
      (format (attempt ∷ " reason=capability_disabled" ∷ []))

-- A character of a file opened with mode "r", before a line feed or not, and the text after it:
-- `\r\n` and `\r` end a line as `\n` does.
abbrev pub translated : Char → (before_lf : Bool) → String → String
translated c before_lf rest =
    if code c == 13 then (if before_lf then rest else String.◌∷◌ "\n" rest) else String.◌∷◌ c rest

unfoldable pub universal : String → String
universal String.[] = ""
universal (String.◌∷◌ c s) = translated c (begins_lf s) (universal s)

-- `f.readlines()` of that text: each line with its end.
unfoldable pub readlines : String → List String
readlines String.[] = []
readlines (String.◌∷◌ c s) =
    let rest = readlines s in if code c == 10 then "\n" ∷ rest else cons_head c rest

-- `all_lines[-lines:] if len(all_lines) > lines else all_lines`. A slice from minus zero is the whole.
unfoldable pub recent : ℤ → List String → List String
recent (pos zero) all_lines = all_lines
recent (pos (suc n)) all_lines =
    if ltb (suc n) (length all_lines) then drop (length all_lines - suc n) all_lines else all_lines
recent (negsuc n) all_lines = drop (suc n) all_lines

-- The text before the first " | ", and the text after it.
unfoldable pub cut_bar : String → Option (String × String)
unfolding starts
cut_bar String.[] = none
cut_bar (String.◌∷◌ c s) =
    let rest = cut_bar s in
    if starts (codes " | ") (codes (String.◌∷◌ c s)) then some ("", after_two s) else before rest
  where
    after_one : String → String
    after_one String.[] = ""
    after_one (String.◌∷◌ d t) = t

    after_two : String → String
    after_two String.[] = ""
    after_two (String.◌∷◌ d t) = after_one t

    before : Option (String × String) → Option (String × String)
    before none = none
    before (some (k, v)) = some (String.◌∷◌ c k, v)

pub record Entry : Type 0 where
  pub timestamp : String
  pub command : Option String
  pub details : Option String
  pub raw : String

abbrev pub cut_rest : String → Option (String × String) → Option String × Option String
cut_rest whole none = (some whole, none)
cut_rest whole (some (command, details)) = (some command, some details)

-- `line.split(" | ", 2)`, as the fields of the entry.
unfoldable pub read_entry : String → Entry
unfolding cut_bar
read_entry line = fields (cut_bar line)
  where
    fields : Option (String × String) → Entry
    fields none = record { timestamp = line; command = none; details = none; raw = line }
    fields (some (timestamp, rest)) =
        let (command, details) = cut_rest rest (cut_bar rest) in
        record { timestamp = timestamp; command = command; details = details; raw = line }

unfoldable pub read_entries : List String → List Entry
unfolding read_entry strip
read_entries [] = []
read_entries (line ∷ lines) =
    let rest = read_entries lines in
    if is_empty (strip line) then rest else read_entry (strip line) ∷ rest

-- The entries of `get_audit_log`; their number is the field "count".
unfoldable pub get_audit_log : ℤ → Option String → List Entry
unfolding read_entries readlines recent universal
get_audit_log lines none = []
get_audit_log lines (some log) = read_entries (recent lines (readlines (universal log)))
