-- ===== src/Agent/Routes.antt =====
-- The old control routes of asl_agent.py, and their authentication. FastAPI solves the dependency of a
-- route, reads its body, and applies the rate limit; then the route runs.
use asl3_api.Prelude.{
  ℕ, String, Bool, true, false, not, ◌&&◌, ◌||◌, Option, none, some, [], ◌∷◌, any, all_chars,
  is_digit, is_empty, str_eq, ◌==◌, if◌then◌else◌,
}
use asl3_api.Errors.{problem, validation_error, Result, ok, err, or_raise, raise_if}
use asl3_api.Errors as Errors
use asl3_api.Effects.{Effect, modify, lift, raise, require, ◌>>=◌, ◌>>◌}
use asl3_api.Models.{
  Kind, link_node, unlink_node, unlink_all, announce, Request, Operation, is_node,
}
use asl3_api.Models.Command.{Mode, transceive, monitor, identify}
use asl3_api.Models.Command as Command
use asl3_api.Config.{Value, bool}
use asl3_api.Config as Config
use asl3_api.Directory.{NodeCache, NodeInfo, lookup}
use asl3_api.Events.Listener.{Listener, subscribe}
use asl3_api.Service.{Platform, Settings}
use asl3_api.Service.Admission.{admit}
use asl3_api.Http.Auth.{Authority, observe, control, is_truthy, authenticate}
use asl3_api.Http.Routes.{dump_link, dump_announcement, is_idempotency_key, credential_text}

abbrev pub authority_for : String → Authority
authority_for method = if any (str_eq method) ("POST" ∷ "DELETE" ∷ []) then control else observe

-- `verify_api_key`; the header is required.
unfoldable pub verify_api_key : Value → (method : String) → Option String → Result Value
verify_api_key config method none = err validation_error
verify_api_key config method (some key) = authenticate config (some key) (authority_for method)

abbrev or_key : Option String → Option String → Option String
or_key none other = other
or_key (some key) other = some key

-- `verify_api_key_query`: the key of the query counts only if it is allowed and there is no header.
unfoldable pub verify_api_key_query : Value → (x_api_key api_key : Option String) → Result Value
verify_api_key_query config x_api_key api_key =
    authenticate config
      (or_key x_api_key (
        if is_truthy (Config.get config "api.allow_legacy_query_key" (bool false))
        then api_key
        else none))
      observe

-- A request to an old control route, with the fields of its body.
pub data LegacyRoute : Type 0 where
  connect : (node : String) (monitor_only : Bool) → LegacyRoute
  disconnect : String → LegacyRoute
  disconnect_all cop_identify cop_status cop_time cop_version : LegacyRoute
  dtmf macro : String → LegacyRoute

pub record Caller : Type 0 where
  pub api_key : Option String
  pub idempotency_key : Option String
  pub limited : Bool

abbrev is_dtmf_char : ℕ → Bool
is_dtmf_char n = is_digit n || (n == b'*' || n == b'#')

-- `legacy_operation`, once the runtime has started.
unfoldable pub legacy_operation : Settings → Kind → Request → Caller → Effect Platform Operation
legacy_operation c kind body caller = do
  name ← lift (authenticate c.config caller.api_key control)
  require (not (is_idempotency_key caller.idempotency_key)) (problem 422 "INVALID_REQUEST")
  credential ← lift (credential_text name)
  admit c kind body credential caller.idempotency_key

abbrev pub connect_mode : Bool → Mode
connect_mode monitor_only = if monitor_only then monitor else transceive

-- What a route does once it runs.
unfoldable pub handle : Settings → LegacyRoute → Caller → Effect Platform Operation
unfolding legacy_operation
handle c (connect node monitor_only) caller =
    legacy_operation c link_node
      (dump_link (record { node = node; mode = connect_mode monitor_only })) caller
handle c (disconnect node) caller = legacy_operation c unlink_node (("node", node) ∷ []) caller
handle c disconnect_all caller = legacy_operation c unlink_all [] caller
handle c cop_identify caller = legacy_operation c announce (dump_announcement identify) caller
handle c cop_status caller =
    legacy_operation c announce (dump_announcement Command.AnnouncementKind.status) caller
handle c cop_time caller = raise (problem 422 "UNSUPPORTED_ANNOUNCEMENT")
handle c cop_version caller = raise (problem 422 "UNSUPPORTED_ANNOUNCEMENT")
handle c (dtmf sequence) caller = raise (problem 503 "capability_disabled")
handle c (macro number) caller = raise (problem 503 "capability_disabled")

-- The validators of the bodies, where `is_decimal` says which characters `\d` matches.
module _ (is_decimal : ℕ → Bool) where
  unfoldable pub validates : LegacyRoute → Bool
  validates (connect node monitor_only) = is_node node
  validates (disconnect node) = is_node node
  validates (dtmf sequence) = not (is_empty sequence) && all_chars is_dtmf_char sequence
  validates (macro number) = not (is_empty number) && all_chars is_decimal number
  validates _ = true

  -- A POST to an old control route.
  unfoldable pub legacy_route : Settings → LegacyRoute → Caller → Effect Platform Operation
  unfolding handle validates
  legacy_route c route caller = do
    lift (verify_api_key c.config "POST" caller.api_key)
    require (not (validates route)) validation_error
    require caller.limited (problem 429 "rate limit exceeded")
    handle c route caller

-- `lookup_node`
unfoldable pub lookup_node : Value → Option String → NodeCache → String → Result NodeInfo
lookup_node config key cache node_number = Errors.◌>>=◌ (verify_api_key config "GET" key) λ name.
    if is_node node_number
    then ok (lookup cache node_number)
    else err (problem 400 "not a node number")

-- A subscription to the old event stream, with the key of its header or its query.
unfoldable pub event_stream :
    Value
    → (x_api_key api_key : Option String) → (events_enabled : Bool) → Effect Listener (Unit {0})
event_stream config x_api_key api_key events_enabled = do
  lift (verify_api_key_query config x_api_key api_key)
  require (not events_enabled) (problem 503 "SSE events are disabled")
  modify subscribe
