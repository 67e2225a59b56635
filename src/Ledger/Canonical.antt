-- ===== src/Ledger/Canonical.antt =====
-- `Ledger.canonical` of vnext/ledger.py: the request as JSON with sorted keys, compact separators
-- and ASCII output, as `json.dumps` of the standard library writes it.
use Prim.Native.String.{compare}
use text.Mathlib.Text.{is_lt}
use asl3_api.Prelude.{
  ℕ, ◌-◌, ◌/◌, ◌%◌, ◌+◌, String, Char, code, ◌&&◌, List, [], ◌∷◌, map, format, join, leb, ltb, ◌==◌,
  if◌then◌else◌, ◌≡◌, refl,
}
use asl3_api.Models.{Kind, link_node, unlink_node, unlink_all, announce, Request}

abbrev hex_digits : List String
hex_digits =
    "0" ∷ "1" ∷ "2" ∷ "3" ∷ "4" ∷ "5" ∷ "6" ∷ "7" ∷ "8" ∷ "9" ∷ "a" ∷ "b" ∷ "c" ∷ "d" ∷ "e" ∷ "f"
    ∷ []

nth_text : List String → ℕ → String
nth_text [] n = ""
nth_text (s ∷ rest) n = let later = nth_text rest (n - 1) in if n == 0 then s else later

hex_digit : ℕ → String
unfolding nth_text
hex_digit n = nth_text hex_digits (n % 16)

-- `"\\u{0:04x}".format(n)`
unicode_escape : ℕ → String
unfolding hex_digit
unicode_escape n =
    format
      ("\\u" ∷ hex_digit (n / 4096) ∷ hex_digit (n / 256) ∷ hex_digit (n / 16) ∷ hex_digit n ∷ [])

surrogates : ℕ → String
unfolding unicode_escape
surrogates n = format (unicode_escape (0xd800 + n / 1024) ∷ unicode_escape (0xdc00 + n % 1024) ∷ [])

escape_char : Char → String
unfolding unicode_escape surrogates
escape_char c =
    let n = code c in
    if n == b'"'
    then "\\\""
    else if n == 92
    then "\\\\"
    else if n == 10
    then "\\n"
    else if n == 13
    then "\\r"
    else if n == 9
    then "\\t"
    else if n == 12
    then "\\f"
    else if n == 8
    then "\\b"
    else if leb b' ' n && leb n b'~'
    then String.◌∷◌ c ""
    else if ltb n 65536
    then unicode_escape n
    else surrogates (n - 65536)

escape : String → List String
escape String.[] = []
escape (String.◌∷◌ c s) = escape_char c ∷ escape s

quoted : String → String
unfolding escape escape_char
quoted s = format ("\"" ∷ format (escape s) ∷ "\"" ∷ [])

-- `sort_keys=True`; the keys of a dict are distinct.
insert_sorted : String × String → Request → Request
insert_sorted e [] = e ∷ []
insert_sorted e (f ∷ rest) =
    if is_lt (compare e.0 f.0) then e ∷ f ∷ rest else f ∷ insert_sorted e rest

sort_keys : Request → Request
unfolding insert_sorted
sort_keys [] = []
sort_keys (e ∷ rest) = insert_sorted e (sort_keys rest)

member : String × String → String
unfolding quoted
member (k, v) = format (quoted k ∷ ":" ∷ quoted v ∷ [])

abbrev pub kind_text : Kind → String
kind_text link_node = "link_node"
kind_text unlink_node = "unlink_node"
kind_text unlink_all = "unlink_all"
kind_text announce = "announce"

unfoldable pub canonical : Kind → Request → String
unfolding member sort_keys quoted
canonical kind request = format (
    "{\"kind\":"
    ∷ quoted (kind_text kind)
    ∷ ",\"request\":{"
    ∷ join "," (map member (sort_keys request))
    ∷ "}}"
    ∷ [])

canonical_test :
    canonical link_node (("node", "2000") ∷ ("mode", "mo\"n\n") ∷ [])
    ≡ "{\"kind\":\"link_node\",\"request\":{\"mode\":\"mo\\\"n\\n\",\"node\":\"2000\"}}"
unfolding canonical join format
canonical_test = refl
