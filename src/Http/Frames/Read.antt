-- ===== src/Http/Frames/Read.antt =====
-- A client reads back the chunks of a stream.
use Prim.Native.String
use asl3_api.Prelude.{
  ℕ, String, Char, code, Bool, true, false, not, some, List, [], ◌∷◌, ◌++◌, format, join, split,
  partition, all_chars, is_empty, ◌==◌, ◌≡◌, refl, sym, ap, ◌∙◌, arith, All, all_chars-append,
  nil-append, cons-append, append_assoc,
}
use asl3_api.Http.Frames.{
  frame, keepalive, Chunk, event, comment, chunk_text, body, Reading, nothing_read, take_field,
  type_or_message, read_lines, read_events,
}

abbrev pub is_not : Char → ℕ → Bool
is_not sep n = not (n == code sep)

-- No character of the text ends a line.
abbrev pub is_inline : ℕ → Bool
is_inline n = not (n == b'\n')

module _ (sep : Char) where
  split-sep :
      (s t : String)
      → all_chars (is_not sep) s ≡ true
      → split (code sep) (String.◌++◌ s (String.◌∷◌ sep t)) ≡ s ∷ split (code sep) t
  unfolding split all_chars
  split-sep String.[] t h = rw nil-append (ground arith)
  split-sep (String.◌∷◌ c s) t h = rw (cons-append, split-sep s t (ground arith)) (ground arith)

  partition-sep :
      (s t : String)
      → all_chars (is_not sep) s ≡ true
      → partition (code sep) (String.◌++◌ s (String.◌∷◌ sep t)) ≡ some (s, t)
  unfolding partition all_chars
  partition-sep String.[] t h = rw nil-append (ground arith)
  partition-sep (String.◌∷◌ c s) t h =
      rw (cons-append, partition-sep s t (ground arith)) (ground arith)

-- The parts before a text.
abbrev onto : List String → String → String
onto [] t = t
onto (s ∷ ss) t = String.◌++◌ s (onto ss t)

format-onto : (ss : List String) (t : String) → String.◌++◌ (format ss) t ≡ onto ss t
unfolding format
format-onto [] t = nil-append t
format-onto (s ∷ ss) t = append_assoc s (format ss) t ∙ ap (String.◌++◌ s) (format-onto ss t)

-- A line of a field.
abbrev field_line : String → String → String
field_line name value = String.◌++◌ name (String.◌++◌ ": " value)

field_line-append :
    (name value t : String)
    → String.◌++◌ (field_line name value) t
      ≡ String.◌++◌ name (String.◌++◌ ": " (String.◌++◌ value t))
field_line-append name value t =
    append_assoc name (String.◌++◌ ": " value) t ∙ ap (String.◌++◌ name) (append_assoc ": " value t)

newline-append : (t : String) → String.◌++◌ "\n" t ≡ String.◌∷◌ "\n" t
newline-append t = rw (cons-append, nil-append) refl

split-newline :
    (s t : String)
    → all_chars is_inline s ≡ true
    → split b'\n' (String.◌++◌ s (String.◌++◌ "\n" t)) ≡ s ∷ split b'\n' t
split-newline s t h = rw (newline-append t) (split-sep "\n" s t h)

abbrev colon : Char
colon = ":"

abbrev FieldName : String → Type 0
FieldName name =
    (all_chars is_inline name ≡ true)
    × (all_chars (is_not colon) name ≡ true)
    × (is_empty name ≡ false)

field_line-is_inline :
    (name value : String)
    → FieldName name
    → all_chars is_inline value ≡ true
    → all_chars is_inline (field_line name value) ≡ true
field_line-is_inline name value f h =
    all_chars-append is_inline name (String.◌++◌ ": " value) f.0
      (all_chars-append is_inline ": " value (unfold all_chars in refl) h)

field_line-is_empty :
    (name value : String) → FieldName name → is_empty (field_line name value) ≡ false
field_line-is_empty String.[] value f = absurd (ground (arith, f.2))
field_line-is_empty (String.◌∷◌ c s) value f = rw cons-append refl

partition-field_line :
    (name value : String)
    → FieldName name
    → partition b':' (field_line name value) ≡ some (name, String.◌∷◌ " " value)
partition-field_line name value f =
    let shape : String.◌++◌ ": " value ≡ String.◌∷◌ ":" (String.◌∷◌ " " value) =
      rw (cons-append, cons-append, nil-append) refl in
    rw shape (partition-sep colon name (String.◌∷◌ " " value) f.1)

read-field_line :
    (name value : String) (r : Reading) (lines : List String)
    → FieldName name
    → read_lines r (field_line name value ∷ lines)
      ≡ read_lines (take_field (some (name, String.◌∷◌ " " value)) r) lines
unfolding read_lines
read-field_line name value r lines f =
    rw (field_line-is_empty name value f, partition-field_line name value f) refl

event_name : FieldName "event"
event_name = unfold all_chars in (refl, refl, refl)

data_name : FieldName "data"
data_name = unfold all_chars in (refl, refl, refl)

split-break : (t : String) → split b'\n' (String.◌++◌ "\n" t) ≡ "" ∷ split b'\n' t
unfolding split
split-break t = rw (newline-append t) refl

-- What a client should read of a chunk.
abbrev pub told : Chunk → List (String × String)
told (event event_type data_text) = (type_or_message event_type, data_text) ∷ []
told comment = []

abbrev pub told_all : List Chunk → List (String × String)
told_all [] = []
told_all (c ∷ cs) = told c ++ told_all cs

-- The texts of an event hold no line end.
abbrev pub IsInline : Chunk → Type 0
IsInline (event event_type data_text) =
    (all_chars is_inline event_type ≡ true) × (all_chars is_inline data_text ≡ true)
IsInline comment = Unit

frame_lines :
    (event_type data_text t : String)
    → IsInline (event event_type data_text)
    → split b'\n' (String.◌++◌ (frame event_type data_text) t)
      ≡ field_line "event" event_type ∷ field_line "data" data_text ∷ "" ∷ split b'\n' t
frame_lines ty d t h =
    let end = String.◌++◌ "\n" (String.◌++◌ "\n" t) in
    let second = String.◌++◌ "data" (String.◌++◌ ": " (String.◌++◌ d end)) in
    ap (split b'\n') (
      format-onto ("event" ∷ ": " ∷ ty ∷ "\n" ∷ "data" ∷ ": " ∷ d ∷ "\n" ∷ "\n" ∷ []) t
      ∙ sym (field_line-append "event" ty (String.◌++◌ "\n" second)))
    ∙ split-newline (field_line "event" ty) second (field_line-is_inline "event" ty event_name h.0)
    ∙ ap (λ ls. field_line "event" ty ∷ ls)
        (ap (split b'\n') (sym (field_line-append "data" d end))
          ∙ split-newline (field_line "data" d) (String.◌++◌ "\n" t)
              (field_line-is_inline "data" d data_name h.1)
          ∙ ap (λ ls. field_line "data" d ∷ ls) (split-break t))

keepalive_lines :
    (t : String) → split b'\n' (String.◌++◌ keepalive t) ≡ ": keepalive" ∷ "" ∷ split b'\n' t
keepalive_lines t =
    ap (split b'\n') (
      ap (λ s. String.◌++◌ s t) parts
      ∙ append_assoc ": keepalive" (String.◌++◌ "\n" "\n") t
      ∙ ap (String.◌++◌ ": keepalive") (append_assoc "\n" "\n" t))
    ∙ split-newline ": keepalive" (String.◌++◌ "\n" t) (unfold all_chars in refl)
    ∙ ap (λ ls. ": keepalive" ∷ ls) (split-break t)
  where
    parts : keepalive ≡ String.◌++◌ ": keepalive" (String.◌++◌ "\n" "\n")
    parts = refl

-- The events read from the body of chunks, each on lines of its own.
read-chunk :
    (c : Chunk) (t : String)
    → IsInline c
    → read_events (String.◌++◌ (chunk_text c) t) ≡ told c ++ read_events t
unfolding read_events join
read-chunk (event ty d) t h =
    ap (read_lines nothing_read) (frame_lines ty d t h)
    ∙ read-field_line "event" ty nothing_read (field_line "data" d ∷ "" ∷ split b'\n' t) event_name
    ∙ read-field_line "data" d (record nothing_read { event_type = ty }) ("" ∷ split b'\n' t)
        data_name
    ∙ unfold read_lines in refl
read-chunk comment t h =
    ap (read_lines nothing_read) (keepalive_lines t) ∙ unfold read_lines partition in refl

-- A client that reads the body of any chunks is told the events, in their order and as they were
-- sent, and nothing else.
pub read_events-body : (cs : List Chunk) → All IsInline cs → read_events (body cs) ≡ told_all cs
unfolding body
read_events-body [] h = unfold read_events read_lines split in refl
read_events-body (c ∷ cs) h =
    read-chunk c (body cs) h.0 ∙ ap (λ es. told c ++ es) (read_events-body cs h.1)
