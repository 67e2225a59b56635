-- ===== src/Tests/Models.antt =====
-- The command of a link request with a mode.
use asl3_api.Prelude.{true, [], ◌∷◌, get, format, all_chars, count, ◌≡◌, refl}
use asl3_api.Errors.{ok}
use asl3_api.Models.{link_node, is_node, Request}
use asl3_api.Models.Command.{validate_node, read_mode, link_request, command_body, command_for}

abbrev monitoring : Request
monitoring = ("node", "2001") ∷ ("mode", "monitor") ∷ []

monitoring_command : command_for "2000" link_node monitoring ≡ ok "rpt cmd 2000 ilink 2 2001"
unfolding command_for command_body validate_node is_node link_request read_mode get format all_chars
    count
monitoring_command = refl

pub is_node_2000 : is_node "2000" ≡ true
unfolding is_node all_chars count
is_node_2000 = refl
