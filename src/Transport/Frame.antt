-- ===== src/Transport/Frame.antt =====
-- `AMISession.frame` of vnext/transport.py.
use asl3_api.Prelude.{
  ℕ, String, code, Bool, false, not, ◌&&◌, ◌||◌, Option, none, some, List, [], ◌∷◌, ◌++◌, any, get,
  put, partition, is_empty, str_eq, leb, ltb, ◌==◌, cons_head, all_chars, if◌then◌else◌,
}
use asl3_api.Errors.{protocol_error, Result, ok, err, ◌>>=◌}
use asl3_api.Transport.{Field, one, many, Message}

-- `char.isspace()`
abbrev pub is_space_char : ℕ → Bool
is_space_char n =
    (leb 9 n && leb n 13)
    || (leb 28 n && leb n 32)
    || n == 133
    || n == 160
    || n == 5760
    || (leb 8192 n && leb n 8202)
    || n == 8232
    || n == 8233
    || n == 8239
    || n == 8287
    || n == 12288

abbrev pub begins_lf : String → Bool
begins_lf String.[] = false
begins_lf (String.◌∷◌ c s) = code c == 10

abbrev tail_of : String → String
tail_of String.[] = ""
tail_of (String.◌∷◌ c s) = s

abbrev pub drop_first : List String → List String
drop_first [] = []
drop_first (s ∷ rest) = tail_of s ∷ rest

-- `text.split("\r\n")`
unfoldable pub split_lines : String → List String
split_lines String.[] = "" ∷ []
split_lines (String.◌∷◌ c s) =
    let rest = split_lines s in
    if code c == 13 && begins_lf s then "" ∷ drop_first rest else cons_head c rest

-- `value.lstrip(" ")`
abbrev strip_left : String → String
strip_left String.[] = ""
strip_left (String.◌∷◌ c s) = if code c == b' ' then strip_left s else String.◌∷◌ c s

abbrev is_repeatable : String → Bool
is_repeatable key = any (str_eq key) ("var" ∷ "conn" ∷ "output" ∷ [])

abbrev extended : Field → String → Field
extended (one v) value = many (v ∷ value ∷ [])
extended (many vs) value = many (vs ++ value ∷ [])

unfoldable pub add_field : String → String → Option Field → Message → Result Message
add_field key value none result = ok (put result key (one value))
add_field key value (some old) result =
    if is_repeatable key
    then ok (put result key (extended old value))
    else err (protocol_error "Duplicate AMI header")

-- The frames of a session, where `lower` is `str.lower`.
module _ (lower : String → String) where
  unfoldable pub add_header : Option (String × String) → Message → Result Message
  unfolding add_field
  add_header none result = err (protocol_error "Malformed AMI header")
  add_header (some (key, value)) result =
      if is_empty key || not (all_chars (λ n. not (is_space_char n)) key)
      then err (protocol_error "Malformed AMI header")
      else add_field (lower key) (strip_left value) (get result (lower key)) result

  unfoldable pub read_headers : List String → Message → Result Message
  unfolding add_header
  read_headers [] result = ok result
  read_headers (line ∷ lines) result =
      add_header (partition b':' line) result >>= read_headers lines

  -- `frame`, from the number of its bytes and the text that they decode to before the terminator.
  unfoldable pub frame : ℕ → Option String → Result Message
  unfolding read_headers split_lines
  frame size text =
      if ltb 262144 size then err (protocol_error "AMI frame too large") else read_text text
    where
      read_text : Option String → Result Message
      read_text none = err (protocol_error "Invalid AMI encoding")
      read_text (some s) = read_headers (split_lines s) []
