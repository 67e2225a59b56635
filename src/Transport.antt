-- ===== src/Transport.antt =====
-- vnext/transport.py: AMI messages, and the reading of a command's response.
pub mod Frame
pub mod Session
pub mod Framing
pub mod Actions
pub mod Client
pub mod Dispatch
pub mod Reads
use asl3_api.Prelude.{
  ℕ, ◌+◌, String, code, Bool, true, false, ◌&&◌, ◌||◌, Option, none, some, List, [], ◌∷◌, any, Dict,
  get, str_eq, leb, ◌==◌, if◌then◌else◌, ◌≡◌, refl,
}

-- A header's value: a text, or the list of a repeated `Var`, `Conn` or `Output`.
pub data Field : Type 0 where
  one : String → Field
  many : List String → Field

abbrev pub Message : Type 0
Message = Dict Field

-- `str.lower`, as far as its result has ASCII characters: A to Z, the Kelvin sign (k) and the
-- capital I with a dot (i and a combining dot). Any other character stays.
unfoldable pub lower : String → List ℕ
lower String.[] = []
lower (String.◌∷◌ c s) =
    let n = code c in
    let rest = lower s in
    if leb b'A' n && leb n b'Z'
    then (n + 32) ∷ rest
    else if n == 8490
    then b'k' ∷ rest
    else if n == 304
    then b'i' ∷ 775 ∷ rest
    else n ∷ rest

unfoldable pub starts : List ℕ → List ℕ → Bool
starts [] s = true
starts (c ∷ p) [] = false
starts (c ∷ p) (d ∷ s) = c == d && starts p s

-- `marker in line`
unfoldable pub is_infix : List ℕ → List ℕ → Bool
unfolding starts
is_infix p [] = starts p []
is_infix p (c ∷ s) = starts p (c ∷ s) || is_infix p s

abbrev pub markers : List String
markers = "Unknown node number" ∷ "is not ready" ∷ "Unknown action name" ∷ "Usage: rpt cmd" ∷ []

-- `response.get("output", [])`, a single text as a list.
unfoldable pub output_lines : Option Field → List String
output_lines none = []
output_lines (some (one s)) = s ∷ []
output_lines (some (many ss)) = ss

-- `message.get(key) == value`
unfoldable pub field_is : Option Field → String → Bool
field_is (some (one s)) t = str_eq s t
field_is _ t = false

unfoldable pub mentions_refusal : List String → Bool
unfolding lower is_infix
mentions_refusal lines = any (λ line. any (λ m. is_infix (lower m) (lower line)) markers) lines

unfoldable pub command_rejected : Message → Bool
unfolding output_lines field_is mentions_refusal
command_rejected response =
    (field_is (get response "response") "Error" || field_is (get response "response") "Failed")
    || mentions_refusal (output_lines (get response "output"))

command_rejected_test :
    command_rejected (
      ("response", one "Success") ∷ ("output", many ("ok" ∷ "x: UNKNOWN node number 5." ∷ [])) ∷ [])
    ≡ true
unfolding command_rejected get
command_rejected_test = refl
