-- ===== src/Http/Problems.antt =====
-- The problem responses of vnext/api.py and the handlers that build them. `type` and `title` are kept
-- as code points.

use asl3_api.Prelude.{
  ℕ, ◌+◌, ◌-◌, String, code, Bool, true, false, ◌&&◌, Option, none, some, List, [], ◌∷◌, ◌++◌,
  codes, format, join, leb, ◌==◌, if◌then◌else◌,
}
use asl3_api.Transport.{lower, starts}
use asl3_api.Http.Routes.{is_withdrawn}

-- `ProblemError`
pub record ProblemError : Type 0 where
  pub status : ℕ
  pub problem_code : String
  pub detail : String

-- The content of a problem response.
pub record Problem : Type 0 where
  pub type_codes : List ℕ
  pub title_codes : List ℕ
  pub status : ℕ
  pub detail : String
  pub problem_code : String
  pub path : String

abbrev pub urn : List ℕ
urn = codes "urn:asl3:problem:"

abbrev pub is_capital : ℕ → Bool
is_capital n = leb b'A' n && leb n b'Z'

abbrev pub is_small : ℕ → Bool
is_small n = leb b'a' n && leb n b'z'

-- `code.replace("_", " ").title()` of an ASCII text; `within` says that a letter came before.
unfoldable pub title_from : (within : Bool) → String → List ℕ
title_from within String.[] = []
title_from within (String.◌∷◌ c s) =
    let n = code c in
    let inside = title_from true s in
    let outside = title_from false s in
    if is_capital n
    then (if within then n + 32 else n) ∷ inside
    else if is_small n
    then (if within then n else n - 32) ∷ inside
    else (if n == b'_' then b' ' else n) ∷ outside

unfoldable pub problem_response :
    (path : String) (status : ℕ) (problem_code detail : String) → Problem
unfolding title_from lower
problem_response path status problem_code detail = record {
  type_codes = urn ++ lower problem_code;
  title_codes = title_from false problem_code;
  status = status;
  detail = detail;
  problem_code = problem_code;
  path = path;
}

-- What a handler answers: a problem, or the default of FastAPI or slowapi.
pub data Answer : Type 0 where
  problem_json : Problem → Answer
  framework_default : Answer

abbrev is_v1 : String → Bool
is_v1 path = starts (codes "/v1/") (codes path)

unfoldable pub problem_handler : String → ProblemError → Answer
unfolding problem_response
problem_handler path e = problem_json (problem_response path e.status e.problem_code e.detail)

-- The code of an `HTTPException`, by its status.
unfoldable pub http_code : ℕ → String
http_code status =
    if status == 404
    then "NOT_FOUND"
    else if status == 405
    then "METHOD_NOT_ALLOWED"
    else "HTTP_ERROR"

unfoldable pub http_handler : String → (status_code : ℕ) (detail : String) → Answer
unfolding http_code problem_response
http_handler path status_code detail =
    if is_v1 path
    then problem_json (problem_response path status_code (http_code status_code) detail)
    else framework_default

unfoldable pub sqlite_handler : String → Answer
unfolding problem_response
sqlite_handler path =
    problem_json
      (problem_response path 503 "LEDGER_UNAVAILABLE" "Operation persistence is unavailable.")

-- `rate_limit_handler` of asl_agent.py.
unfoldable pub rate_limit_handler : String → Answer
unfolding problem_response
rate_limit_handler path =
    if is_v1 path
    then problem_json (problem_response path 429 "RATE_LIMITED" "Request rate limit exceeded.")
    else framework_default

abbrev pub supported_announcements : List String
supported_announcements = "identify" ∷ "status" ∷ []

-- `repr` is Python's of a text.
module _ (repr : String → String) where
  unfoldable pub unsupported_announcement_detail : String → String
  unsupported_announcement_detail kind =
      let supported = join ", " supported_announcements in
      if is_withdrawn (some kind)
      then format (
          "Announcement kind "
          ∷ repr kind
          ∷ " is withdrawn. app_rpt delivers it as "
          ∷ "link telemetry text, and whether it is spoken depends on the "
          ∷ "receiving node's telemetry policy, which this API cannot observe "
          ∷ "or control. Supported kinds: "
          ∷ supported
          ∷ "."
          ∷ [])
      else format (
          "Announcement kind "
          ∷ repr kind
          ∷ " is not supported. Supported kinds: "
          ∷ supported
          ∷ "."
          ∷ [])

  -- `validation_handler`, for the withdrawn kind that the errors name.
  unfoldable pub validation_handler : String → Option String → Answer
  unfolding problem_response unsupported_announcement_detail
  validation_handler path withdrawn =
      if is_v1 path then problem_json (refusal withdrawn) else framework_default
    where
      refusal : Option String → Problem
      refusal (some kind) =
          problem_response path 422 "UNSUPPORTED_ANNOUNCEMENT"
            (unsupported_announcement_detail kind)
      refusal none =
          problem_response path 422 "INVALID_REQUEST" "Request does not match the v1 schema."
