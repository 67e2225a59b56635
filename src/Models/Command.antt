-- ===== src/Models/Command.antt =====
-- `command_for` of vnext/models.py, and the request models that it validates.
use asl3_api.Prelude.{
  String, Bool, true, false, not, ◌||◌, Option, none, some, List, [], ◌∷◌, all, any, format, get,
  keys, str_eq, if◌then◌else◌,
}
use asl3_api.Errors.{
  problem, value_error, key_error, validation_error, Result, ok, err, ◌>>=◌, ◌>>◌, raise_if,
  or_raise,
}
use asl3_api.Models.{Kind, link_node, unlink_node, unlink_all, announce, Request, is_node}

unfoldable pub validate_node : String → Result String
validate_node value =
    if is_node value
    then ok value
    else err (value_error "Node must be 1-6 ASCII digits with no leading zero")

pub data Mode : Type 0 where
  transceive monitor : Mode

-- `LinkRequest`
pub record LinkBody : Type 0 where
  pub node : String
  pub mode : Mode

pub data AnnouncementKind : Type 0 where
  identify status : AnnouncementKind

-- The validation of `mode: Literal["transceive", "monitor"] = "transceive"`.
unfoldable pub read_mode : Option String → Result Mode
read_mode none = ok transceive
read_mode (some m) =
    if str_eq m "transceive"
    then ok transceive
    else if str_eq m "monitor"
    then ok monitor
    else err validation_error

-- `extra="forbid"`
abbrev pub only_keys : List String → Request → Bool
only_keys allowed request = all (λ k. any (str_eq k) allowed) (keys request)

-- `LinkRequest(**request)`
unfoldable pub link_request : Request → Result LinkBody
unfolding read_mode
link_request request = do
  raise_if (not (only_keys ("node" ∷ "mode" ∷ []) request)) validation_error
  node ← or_raise (get request "node") validation_error
  raise_if (not (is_node node)) validation_error
  mode ← read_mode (get request "mode")
  ok (record { node = node; mode = mode })

-- The validation of `kind: Literal["identify", "status"]`.
unfoldable pub read_announcement : String → Result AnnouncementKind
read_announcement k =
    if str_eq k "identify"
    then ok identify
    else if str_eq k "status"
    then ok status
    else err validation_error

-- `AnnouncementRequest(**request)`
unfoldable pub announcement_request : Request → Result AnnouncementKind
unfolding read_announcement
announcement_request request = do
  raise_if (not (only_keys ("kind" ∷ []) request)) validation_error
  kind ← or_raise (get request "kind") validation_error
  read_announcement kind

-- `requested not in SUPPORTED_ANNOUNCEMENTS`, for a request that names a kind.
unfoldable pub is_unsupported : Option String → Bool
is_unsupported none = false
is_unsupported (some k) = not (str_eq k "identify" || str_eq k "status")

abbrev pub ilink_mode : Mode → String
ilink_mode monitor = "2"
ilink_mode transceive = "3"

abbrev pub announcement : AnnouncementKind → String
announcement identify = "status 1"
announcement status = "ilink 5"

abbrev is_nil : Request → Bool
is_nil [] = true
is_nil (e ∷ es) = false

-- The app_rpt command of an operation, without its `rpt cmd <node>` prefix.
unfoldable pub command_body : Kind → Request → Result String
unfolding link_request validate_node is_unsupported announcement_request
command_body link_node request = do
  body ← link_request request
  ok (format ("ilink " ∷ ilink_mode body.mode ∷ " " ∷ body.node ∷ []))
command_body unlink_node request = do
  target ← or_raise (get request "node") (key_error "node")
  node ← validate_node target
  ok (format ("ilink 11 " ∷ node ∷ []))
command_body unlink_all request =
    if is_nil request then ok "ilink 6" else err (value_error "Unsupported operation")
command_body announce request = do
  raise_if (is_unsupported (get request "kind")) (problem 422 "UNSUPPORTED_ANNOUNCEMENT")
  kind ← announcement_request request
  ok (announcement kind)

unfoldable pub command_for : String → Kind → Request → Result String
unfolding command_body validate_node
command_for node kind request = do
  _ ← validate_node node
  command ← command_body kind request
  ok (format ("rpt cmd " ∷ node ∷ " " ∷ command ∷ []))
