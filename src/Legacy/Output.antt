-- ===== src/Legacy/Output.antt =====
-- The reading of an AMI answer in ami_client.py: `normalize_ami_output`, `ami_failure_detail` and
-- `AMIClient._rejection_reason`.

use asl3_api.Prelude.{
  String, code, Bool, true, false, ◌&&◌, Option, none, some, List, [], ◌∷◌, ◌++◌, any, codes,
  format, join, split, is_empty, ◌==◌, if◌then◌else◌,
}
use asl3_api.Transport.{Field, one, many, is_infix, markers}
use asl3_api.Software.{strip}

-- What the helpers read of an answer: the entries of a mapping, and the attributes. An attribute or
-- an entry of another type than the code looks for is none.
pub record Response : Type 0 where
  pub output_entry : Option Field
  pub output_attribute : Option Field
  pub content_entry : Option String
  pub content_attribute : Option String
  pub success : Option Bool
  pub message : Option String
  pub response_code : Option String

abbrev pub field_texts : Option Field → List String
field_texts none = []
field_texts (some (one text)) = text ∷ []
field_texts (some (many texts)) = texts

abbrev pub or_field : Option Field → Option Field → Option Field
or_field none o = o
or_field (some f) o = some f

abbrev pub filled : Option String → List String
filled none = []
filled (some text) = if is_empty text then [] else text ∷ []

-- The first text that is not empty.
abbrev pub filled_or : List String → List String → List String
filled_or [] rest = rest
filled_or (t ∷ ts) rest = t ∷ []

unfoldable pub chunks : Response → List String
chunks r =
    field_texts (or_field r.output_entry r.output_attribute)
    ++ filled_or (filled r.content_entry) (filled r.content_attribute)

unfoldable pub lines_of : List String → List String
lines_of [] = []
lines_of (chunk ∷ rest) = split b'\n' chunk ++ lines_of rest

-- `line.rstrip("\r")`
unfoldable pub without_return : String → String
without_return String.[] = ""
without_return (String.◌∷◌ c s) =
    let rest = without_return s in if code c == 13 && is_empty rest then "" else String.◌∷◌ c rest

-- `[line.rstrip("\r").strip() for line in lines if line.strip()]`
unfoldable pub trimmed : List String → List String
unfolding strip without_return
trimmed [] = []
trimmed (line ∷ lines) =
    let rest = trimmed lines in
    if is_empty (strip line) then rest else strip (without_return line) ∷ rest

-- `normalize_ami_output`
unfoldable pub normalize_ami_output : Response → List String
unfolding chunks lines_of trimmed
normalize_ami_output r = trimmed (lines_of (chunks r))

abbrev pub failure_prefix : List String → String
failure_prefix [] = "AMI reported failure"
failure_prefix (c ∷ cs) = format ("AMI responded " ∷ c ∷ [])

abbrev pub with_detail : String → String → String
with_detail prefix detail = if is_empty detail then prefix else format (prefix ∷ ": " ∷ detail ∷ [])

abbrev pub detail_text : List String → List String → String
detail_text [] lines = join " " lines
detail_text (m ∷ ms) lines = m

abbrev pub is_failure : Option Bool → Bool
is_failure (some false) = true
is_failure _ = false

-- `ami_failure_detail`
unfoldable pub ami_failure_detail : Response → Option String
unfolding normalize_ami_output
ami_failure_detail r =
    if is_failure r.success
    then some (
        with_detail (failure_prefix (filled r.response_code))
          (detail_text (filled r.message) (normalize_ami_output r)))
    else none

abbrev pub joined_output : Response → String
joined_output r = strip (join " " (normalize_ami_output r))

abbrev pub mentions_marker : String → Bool
mentions_marker joined = any (λ marker. is_infix (codes marker) (codes joined)) markers

-- `failure`, if it is a text that is not empty.
abbrev pub or_refusal : List String → String → Option String
or_refusal (failure ∷ rest) joined = some failure
or_refusal [] joined = if mentions_marker joined then some joined else none

-- `_rejection_reason`
unfoldable pub rejection_reason : Response → Option String
unfolding ami_failure_detail
rejection_reason r = or_refusal (filled (ami_failure_detail r)) (joined_output r)
