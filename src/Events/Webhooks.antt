-- ===== src/Events/Webhooks.antt =====
-- `EventHandler` of event_handler.py. Its `event_listener` is None, since nothing assigns it, so the
-- broadcasts of the callbacks are left out. `posted` is a history: the webhooks that were attempted,
-- and what the endpoint answers, or raises, changes nothing.
use asl3_api.Prelude.{
  String, Bool, true, false, not, ◌&&◌, ◌||◌, List, [], ◌∷◌, ◌++◌, map, str_eq, if◌then◌else◌,
}
use asl3_api.Errors.{Result, ok, err}
use asl3_api.Models.{NodeState, DirectLink}
use asl3_api.Legacy.Client.{get_connected_nodes, link_mode_text}
use asl3_api.Events.{to_set, minus}
use asl3_api.Events.Listener.{nodes_of}

-- `event_type`, with the `data` of the payload.
pub data Webhook : Type 0 where
  node_connected : (node mode : String) → Webhook
  node_disconnected : String → Webhook

pub record Handler : Type 0 where
  pub has_session : Bool
  pub known_nodes : List String
  pub posted : List Webhook

abbrev pub init : Handler
init = record { has_session = false; known_nodes = []; posted = [] }

-- The mode of the first link of the node.
abbrev pub mode_of : String → List DirectLink → String
mode_of node [] = ""
mode_of node (link ∷ links) =
    let rest = mode_of node links in
    if str_eq link.node node then link_mode_text link.mode else rest

module _ (webhooks_enabled : Bool) where
  -- `start`, for whether `webhooks.url` is empty.
  abbrev pub start : (no_url : Bool) → Handler → Handler
  start no_url h = if webhooks_enabled && not no_url then record h { has_session = true } else h

  abbrev pub stop : Handler → Handler
  stop h = record h { has_session = false }

  abbrev pub send_webhook : Webhook → Handler → Handler
  send_webhook webhook h =
      if not webhooks_enabled || not h.has_session
      then h
      else record h { posted = h.posted ++ webhook ∷ [] }

  unfoldable pub send_all : List Webhook → Handler → Handler
  send_all [] h = h
  send_all (w ∷ ws) h = send_all ws (send_webhook w h)

  -- `arrange` is the order in which Python iterates over a set.
  module _ (arrange : List String → List String) where
    abbrev pub connects : List DirectLink → List String → List Webhook
    connects links known =
        map (λ node. node_connected node (mode_of node links))
          (arrange (minus (to_set (nodes_of links)) known))

    abbrev pub disconnects : List DirectLink → List String → List Webhook
    disconnects links known =
        map node_disconnected (arrange (minus known (to_set (nodes_of links))))

    abbrev pub notice : List DirectLink → Handler → Handler
    notice links h =
        record (send_all (disconnects links h.known_nodes)
          (send_all (connects links h.known_nodes) h)) { known_nodes = to_set (nodes_of links) }

    abbrev pub noticed : Result (List DirectLink) → Handler → Handler
    noticed (ok links) h = notice links h
    noticed (err e) h = h

    -- `_check_node_changes`, for what the observer's snapshot returns or raises.
    unfoldable pub check_node_changes : Result NodeState → Handler → Handler
    check_node_changes snapshot h = noticed (get_connected_nodes snapshot) h

    -- The rounds of `monitoring_loop`.
    unfoldable pub monitor : List (Result NodeState) → Handler → Handler
    unfolding check_node_changes
    monitor [] h = h
    monitor (snapshot ∷ snapshots) h = monitor snapshots (check_node_changes snapshot h)
