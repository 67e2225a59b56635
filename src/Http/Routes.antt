-- ===== src/Http/Routes.antt =====
-- The routes of vnext/api.py that admit an operation or read the ledger. FastAPI solves the
-- dependencies of a route in their order, then raises what its schema refused, then calls the route.
use asl3_api.Prelude.{
  ℕ, String, Bool, true, false, not, ◌&&◌, ◌||◌, Option, none, some, List, [], ◌∷◌, format, get,
  all_chars, count, leb, str_eq, if◌then◌else◌, Dict,
}
use asl3_api.Errors.{problem, validation_error, sqlite_error, Exception, Result, ok, err}
use asl3_api.Effects.{Effect, pure, raise, lift, ◌>>=◌, ◌>>◌, require}
use asl3_api.Errors as Errors
use asl3_api.Models.{
  Kind, link_node, unlink_node, unlink_all, announce, Request, Operation, is_node,
}
use asl3_api.Models.Command.{
  Mode, transceive, monitor, LinkBody, AnnouncementKind, identify, link_request,
  announcement_request,
}
use asl3_api.Config.{Value, str}
use asl3_api.Ledger.Methods as Methods
use asl3_api.Service.{Platform, Settings, on_ledger, require_ledger}
use asl3_api.Service.Admission.{admit}
use asl3_api.Http.Auth.{observe, control, authenticate}

-- What FastAPI and slowapi hand to a route: the headers X-API-Key and Idempotency-Key, whether the
-- rate limit is exceeded, the node of the path and the JSON object of the body, with texts as values.
pub record Call : Type 0 where
  pub api_key : Option String
  pub idempotency_key : Option String
  pub limited : Bool
  pub path_node : String
  pub body : Dict String

abbrev pub mode_text : Mode → String
mode_text transceive = "transceive"
mode_text monitor = "monitor"

abbrev pub kind_name : AnnouncementKind → String
kind_name identify = "identify"
kind_name AnnouncementKind.status = "status"

-- `body.model_dump()`
abbrev pub dump_link : LinkBody → Request
dump_link body = ("node", body.node) ∷ ("mode", mode_text body.mode) ∷ []

abbrev pub dump_announcement : AnnouncementKind → Request
dump_announcement kind = ("kind", kind_name kind) ∷ []

abbrev is_key_char : ℕ → Bool
is_key_char n = leb b'!' n && leb n b'~'

-- The schema of Idempotency-Key.
unfoldable pub is_idempotency_key : Option String → Bool
is_idempotency_key none = true
is_idempotency_key (some key) =
    all_chars is_key_char key && (leb 1 (count key) && leb (count key) 128)

-- `withdrawn_announcement`, for the `kind` of the body.
abbrev pub is_withdrawn : Option String → Bool
is_withdrawn none = false
is_withdrawn (some kind) = str_eq kind "time" || str_eq kind "version"

-- `validation_handler`, for a path that begins with /v1/.
unfoldable pub refuse_schema : Option String → Exception
refuse_schema kind =
    if is_withdrawn kind
    then problem 422 "UNSUPPORTED_ANNOUNCEMENT"
    else problem 422 "INVALID_REQUEST"

-- The control routes: POST /links, DELETE /links/{node}, DELETE /links, POST /announcements.
pub data Route : Type 0 where
  post_link delete_link delete_links post_announcement : Route

abbrev pub kind_of : Route → Kind
kind_of post_link = link_node
kind_of delete_link = unlink_node
kind_of delete_links = unlink_all
kind_of post_announcement = announce

-- The request of a body that the schema of the route accepts.
unfoldable pub dump : Route → Call → Result Request
unfolding link_request announcement_request
dump post_link q = Errors.◌>>=◌ (link_request q.body) λ body. ok (dump_link body)
dump delete_link q =
    if is_node q.path_node then ok (("node", q.path_node) ∷ []) else err validation_error
dump delete_links q = ok []
dump post_announcement q =
    Errors.◌>>=◌ (announcement_request q.body) λ kind. ok (dump_announcement kind)

-- The `kind` that an error of the route's schema can name: an unknown field of a link's body too.
abbrev pub named_kind : Route → Call → Option String
named_kind post_announcement q = get q.body "kind"
named_kind post_link q = get q.body "kind"
named_kind _ q = none

abbrev pub or_refuse : Exception → Result Request → Result Request
or_refuse e (ok request) = ok request
or_refuse e (err x) = err e

-- The schema of a route, as `validation_handler` answers for it.
unfoldable pub schema : Route → Call → Result Request
unfolding dump is_idempotency_key refuse_schema
schema route q =
    if is_idempotency_key q.idempotency_key
    then or_refuse (refuse_schema (named_kind route q)) (dump route q)
    else err (refuse_schema (named_kind route q))

-- The name of a credential. `validate` has refused a name that is no text.
abbrev pub credential_text : Value → Result String
credential_text (str name) = ok name
credential_text _ = err validation_error

-- `link`, `unlink`, `unlink_all` and `announce`, with `accepted`.
unfoldable pub control_route : Settings → Route → Call → Effect Platform Operation
unfolding schema
control_route c route q = do
  name ← lift (authenticate c.config q.api_key control)
  request ← lift (schema route q)
  require q.limited (problem 429 "RATE_LIMITED")
  credential ← lift (credential_text name)
  admit c (kind_of route) request credential q.idempotency_key

-- The dependency `platform` comes after `control` and before the schema.
unfoldable pub without_platform : Settings → Call → Result Operation
without_platform c q =
    Errors.◌>>=◌ (authenticate c.config q.api_key control)
      λ name. err (problem 503 "CONTROL_UNAVAILABLE")

pub data Response : Type 0 where
  accepted : Operation → (location : String) → Response
  refused : (status : ℕ) (problem_code : String) → Response
  -- an exception that no handler of the program takes
  unhandled : Exception → Response

-- `accepted`, and the handlers of `ProblemError` and `sqlite3.Error`.
unfoldable pub respond : Result Operation → Response
respond (ok operation) = accepted operation (format ("/v1/operations/" ∷ operation.id ∷ []))
respond (err (problem status code)) = refused status code
respond (err sqlite_error) = refused 503 "LEDGER_UNAVAILABLE"
respond (err e) = unhandled e

-- GET /operations, with `limit` from 1 to 500.
unfoldable pub operations :
    Settings → Option String → (limit offset : ℕ) → Effect Platform (List Operation)
operations c key limit offset = do
  lift (authenticate c.config key observe)
  require (not (leb 1 limit && leb limit 500)) (problem 422 "INVALID_REQUEST")
  require_ledger
  on_ledger (Methods.list c.env c.node limit offset)

abbrev or_not_found : Option Operation → Effect Platform Operation
or_not_found none = raise (problem 404 "OPERATION_NOT_FOUND")
or_not_found (some operation) = pure operation

-- GET /operations/{operation_id}
unfoldable pub operation : Settings → Option String → String → Effect Platform Operation
operation c key operation_id = do
  lift (authenticate c.config key observe)
  require_ledger
  found ← on_ledger (Methods.get c.env c.node operation_id)
  or_not_found found

-- `control_enabled` of GET /capabilities.
unfoldable pub control_enabled : Platform → Bool
control_enabled p = p.healthy && (p.owner_held && not p.closing)
