-- ===== src/Tests/Events.antt =====
-- A node links and unlinks while a client listens.
use asl3_api.Prelude.{
  String, true, false, none, some, List, [], ◌∷◌, Bool, if◌then◌else◌, ◌≡◌, refl,
}
use asl3_api.Errors.{ok, err, timeout_error, Result}
use asl3_api.Models.{NodeState, DirectLink, letter_t, established}
use asl3_api.Config.{str}
use asl3_api.Events.{IsSame}
use asl3_api.Events.Listener.{
  Event, Detail, link_connected, link_disconnected, Origin, init, Action, starts, subscribes, polls,
  run, act, poll_once, broadcast, broadcast_all,
}
use asl3_api.Events.Recent.{AllRecent, run-AllRecent}
use asl3_api.Events.View.{Follows}
use asl3_api.Events.Replay.{run-Follows}
use asl3_api.Events.Webhooks.{
  Webhook, node_connected, node_disconnected, Handler, start, send_all, check_node_changes, monitor,
}
use asl3_api.Events.Webhooks as Webhooks
use asl3_api.Events.Notified.{IsTold, latest, monitor-latest, replay}
use asl3_api.Legacy.Client.{get_connected_nodes}
use asl3_api.Tests.Service.{idle_state}

unfoldable listening : Unit {0}
unfolding run act poll_once broadcast broadcast_all monitor check_node_changes send_all
    get_connected_nodes replay
listening = tt

abbrev pub link : DirectLink
link = record {
  node = "2001";
  allstar_node = some "2001";
  mode = letter_t;
  keyed = false;
  connection_status = established;
}

abbrev pub linked_state : NodeState
linked_state = record idle_state { direct_links = some (link ∷ []) }

abbrev gap_state : NodeState
gap_state = record idle_state {
  is_complete = false;
  direct_links = none;
  rx_keyed = none;
  tx_keyed = none;
}

abbrev pub origin : Origin
origin = record { node = "2000"; callsign = str "W1AW" }

abbrev in_order : List String → List String
in_order ns = ns

-- The last snapshot shows a link that went away in the gap.
abbrev actions : List Action
actions =
    starts true
    ∷ subscribes
    ∷ polls (ok idle_state)
    ∷ polls (ok linked_state)
    ∷ polls (ok idle_state)
    ∷ polls (err timeout_error)
    ∷ polls (ok linked_state)
    ∷ polls (ok gap_state)
    ∷ polls (ok idle_state)
    ∷ []

abbrev is_transition : Detail → Bool
is_transition (link_connected n) = true
is_transition (link_disconnected n) = true
is_transition _ = false

abbrev transitions_of : List Event → List Detail
transitions_of [] = []
transitions_of (e ∷ es) =
    let rest = transitions_of es in if is_transition e.detail then e.detail ∷ rest else rest

transitions_test :
    transitions_of (run in_order origin actions init).sent
    ≡ link_connected "2001" ∷ link_disconnected "2001" ∷ link_connected "2001" ∷ []
unfolding listening
transitions_test = refl

run-AllRecent_example : AllRecent (run in_order origin actions init)
run-AllRecent_example = run-AllRecent in_order origin actions

run-Follows_example : Follows (run in_order origin actions init)
run-Follows_example = run-Follows in_order origin (λ ns n. refl) actions

abbrev snapshots : List (Result NodeState)
snapshots = ok linked_state ∷ ok gap_state ∷ err timeout_error ∷ ok idle_state ∷ []

abbrev begun : Handler
begun = start true false Webhooks.init

posted_test :
    (monitor true in_order snapshots begun).posted
    ≡ node_connected "2001" "T" ∷ node_disconnected "2001" ∷ []
unfolding listening
posted_test = refl

begun-IsTold : IsTold begun
unfolding replay
begun-IsTold = record { session = refl; told = λ n. refl }

-- The gap is not complete: the last complete snapshot has no links.
monitor-latest_example :
    IsSame
      (replay (monitor true in_order snapshots begun).posted [])
      (latest snapshots begun.known_nodes)
monitor-latest_example = monitor-latest in_order (λ ns n. refl) snapshots begun begun-IsTold
