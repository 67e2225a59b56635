-- ===== src/Http/Frames.antt =====
-- The text/event-stream frames that vnext/api.py and asl_agent.py yield, and how a client reads them.
pub mod Read
use Prim.Native.String
use asl3_api.Prelude.{
  ℕ, String, code, Bool, true, false, not, Option, none, some, List, [], ◌∷◌, ◌++◌, map, format,
  join, split, partition, all_chars, is_empty, str_eq, ◌==◌, if◌then◌else◌, ◌≡◌, refl, sym, ap, ◌∙◌,
  arith, All, nil-append, cons-append, append_assoc,
}

-- `f"event: {event_type}\ndata: {data}\n\n"`
abbrev pub frame : String → String → String
frame event_type data_text =
    format ("event" ∷ ": " ∷ event_type ∷ "\n" ∷ "data" ∷ ": " ∷ data_text ∷ "\n" ∷ "\n" ∷ [])

abbrev pub keepalive : String
keepalive = ": keepalive\n\n"

-- What a generator yields: an event, or a comment that keeps the connection.
pub data Chunk : Type 0 where
  event : (event_type data_text : String) → Chunk
  comment : Chunk

abbrev pub chunk_text : Chunk → String
chunk_text (event event_type data_text) = frame event_type data_text
chunk_text comment = keepalive

-- The text of a response so far.
unfoldable pub body : List Chunk → String
body [] = ""
body (c ∷ cs) = String.◌++◌ (chunk_text c) (body cs)

-- A client's event: its type, and the lines of its data.
pub record Reading : Type 0 where
  pub event_type : String
  pub data_lines : List String

abbrev pub nothing_read : Reading
nothing_read = record { event_type = ""; data_lines = [] }

-- The value of a field: one space behind the colon does not count.
abbrev pub without_space : String → String
without_space String.[] = ""
without_space (String.◌∷◌ c s) = if code c == b' ' then s else String.◌∷◌ c s

-- A line of the stream: `event` and `data` are fields, all others are passed over.
abbrev pub take_field : Option (String × String) → Reading → Reading
take_field none r = r
take_field (some (name, value)) r =
    if str_eq name "event"
    then record r { event_type = without_space value }
    else if str_eq name "data"
    then record r { data_lines = r.data_lines ++ without_space value ∷ [] }
    else r

abbrev pub type_or_message : String → String
type_or_message t = if is_empty t then "message" else t

-- An event without a type is a "message", and one without data is none.
abbrev dispatched_lines : String → List String → List (String × String)
dispatched_lines t [] = []
dispatched_lines t (d ∷ ds) = (type_or_message t, join "\n" (d ∷ ds)) ∷ []

abbrev pub dispatched : Reading → List (String × String)
dispatched r = dispatched_lines r.event_type r.data_lines

-- The events of the lines, as the event stream format says: an empty line ends an event.
unfoldable pub read_lines : Reading → List String → List (String × String)
read_lines r [] = []
read_lines r (line ∷ lines) =
    let ended = read_lines nothing_read lines in
    let later = read_lines (take_field (partition b':' line) r) lines in
    if is_empty line then dispatched r ++ ended else later

unfoldable pub read_events : String → List (String × String)
unfolding read_lines
read_events text = read_lines nothing_read (split b'\n' text)
