-- ===== src/Directory.antt =====
-- `NodeCache` of node_cache.py: the node directory, refreshed from a text of lines
-- `node|callsign|description|location`.
pub mod Latest
use Prim.Native.String
use asl3_api.Prelude.{
  ℕ, zero, suc, String, code, Bool, true, false, ◌&&◌, ◌||◌, Option, none, some, List, [], ◌∷◌,
  length, Dict, get, put, split, cons_head, is_empty, leb, ◌==◌, if◌then◌else◌,
}
use asl3_api.Errors.{Result, ok, err}
use asl3_api.Software.{strip}

pub record Entry : Type 0 where
  pub callsign : Option String
  pub description : Option String
  pub location : Option String

-- `last_fetch` is 0.0 before the first fetch. Times are in ticks.
pub record NodeCache : Type 0 where
  pub cache : Dict Entry
  pub last_fetch : ℕ
  pub refreshing : Bool

abbrev pub init : NodeCache
init = record { cache = []; last_fetch = 0; refreshing = false }

-- The line boundaries of `str.splitlines`.
abbrev pub is_line_break : ℕ → Bool
is_line_break n =
    (leb 10 n && leb n 13) || (leb 28 n && leb n 30) || n == 133 || n == 8232 || n == 8233

abbrev pub begins_newline : String → Bool
begins_newline String.[] = false
begins_newline (String.◌∷◌ c s) = code c == 10

-- `text.splitlines()`: a carriage return before a newline is one boundary with it.
unfoldable pub splitlines : String → List String
splitlines String.[] = []
splitlines (String.◌∷◌ c s) =
    let rest = splitlines s in
    if code c == 13 && begins_newline s
    then rest
    else if is_line_break (code c)
    then "" ∷ rest
    else cons_head c rest

-- `parts[n].strip() if len(parts) > n and parts[n].strip() else None`
unfoldable pub part : ℕ → List String → Option String
unfolding strip
part n [] = none
part zero (p ∷ parts) = if is_empty (strip p) then none else some (strip p)
part (suc n) (p ∷ parts) = part n parts

-- What a line that is not blank says: its node, which may be missing, and the entry.
unfoldable pub read_line : String → Option (String × Entry)
unfolding part
read_line line =
    let parts = split b'|' (strip line) in
    of_node (part 0 parts)
      (record { callsign = part 1 parts; description = part 2 parts; location = part 3 parts })
  where
    of_node : Option String → Entry → Option (String × Entry)
    of_node none entry = none
    of_node (some node) entry = some (node, entry)

abbrev pub add_line : Option (String × Entry) → Dict Entry → Dict Entry
add_line none cache = cache
add_line (some (node, entry)) cache = put cache node entry

unfoldable pub read_lines : List String → Dict Entry → Dict Entry
unfolding read_line
read_lines [] cache = cache
read_lines (line ∷ lines) cache = read_lines lines (add_line (read_line line) cache)

-- An HTTP answer; its text may fail to arrive.
pub record Answer : Type 0 where
  pub status : ℕ
  pub text : Result String

-- The text, if the request returned, with the status 200, and the text arrived.
abbrev pub text_of : Result Answer → Option String
text_of (err e) = none
text_of (ok answer) = if answer.status == 200 then arrived answer.text else none
  where
    arrived : Result String → Option String
    arrived (ok text) = some text
    arrived (err e) = none

abbrev pub refresh : Option String → ℕ → NodeCache → NodeCache
refresh none now c = c
refresh (some text) now c = record c { cache = read_lines (splitlines text) []; last_fetch = now }

-- `_fetch`
unfoldable pub fetch : Result Answer → (now : ℕ) → NodeCache → NodeCache
fetch answer now c = refresh (text_of answer) now c

-- `start`, and a round of `_refresh_loop` is `fetch`.
unfoldable pub start : Result Answer → ℕ → NodeCache → NodeCache
unfolding fetch
start answer now c = record (fetch answer now c) { refreshing = true }

abbrev pub stop : NodeCache → NodeCache
stop c = record c { refreshing = false }

unfoldable pub fetch_all : List (Result Answer × ℕ) → NodeCache → NodeCache
unfolding fetch
fetch_all [] c = c
fetch_all ((answer, now) ∷ rest) c = fetch_all rest (fetch answer now c)

-- The answer of `lookup`. An entry has three keys, so it is never empty.
pub record NodeInfo : Type 0 where
  pub node : String
  pub callsign : Option String
  pub description : Option String
  pub location : Option String

abbrev pub info_of : String → Option Entry → NodeInfo
info_of node none = record { node = node; callsign = none; description = none; location = none }
info_of node (some e) = record {
  node = node;
  callsign = e.callsign;
  description = e.description;
  location = e.location;
}

unfoldable pub lookup : NodeCache → String → NodeInfo
lookup c node = info_of node (get c.cache node)

-- `node.get("node", "")` of a node whose values are texts or None.
abbrev pub node_key : Option (Option String) → Option String
node_key none = some ""
node_key (some value) = value

abbrev pub entry_at : NodeCache → Option String → Option Entry
entry_at c none = none
entry_at c (some node) = get c.cache node

abbrev pub enriched : Dict (Option String) → NodeInfo → Dict (Option String)
enriched d info =
    put (put (put d "callsign" info.callsign) "description" info.description) "location"
      info.location

-- A round of the loop of `enrich_node_list`.
unfoldable pub enrich : NodeCache → Dict (Option String) → Dict (Option String)
enrich c d = enriched d (info_of "" (entry_at c (node_key (get d "node"))))

unfoldable pub enrich_node_list :
    NodeCache → List (Dict (Option String)) → List (Dict (Option String))
unfolding enrich
enrich_node_list c [] = []
enrich_node_list c (d ∷ ds) = enrich c d ∷ enrich_node_list c ds

abbrev pub size : NodeCache → ℕ
size c = length c.cache

abbrev pub last_updated : NodeCache → Option ℕ
last_updated c = if c.last_fetch == 0 then none else some c.last_fetch
