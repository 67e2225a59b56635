-- ===== src/Events/Listener.antt =====
-- `AMIEventListener` of ami_event_listener.py. The method `_poll_once` awaits only the snapshot, so
-- what comes after it is one step. `sent` is a history: the events broadcast so far.
use asl3_api.Prelude.{
  ℕ, suc, String, Bool, true, false, Option, none, some, List, [], ◌∷◌, ◌++◌, map, length, drop,
  leb, ◌==◌, if◌then◌else◌,
}
use asl3_api.Errors.{type_error, Result, or_raise}
use asl3_api.Effects.{Effect, lift, modify, ◌>>=◌, ◌>>◌}
use asl3_api.Models.{NodeState, DirectLink, StateStatus}
use asl3_api.Config.{Value}
use asl3_api.Events.{to_set, minus}

pub data Detail : Type 0 where
  variables_snapshot :
      (rxkeyed txkeyed : Option Bool) (is_complete : Bool) (state_status : StateStatus)
      (direct_links : Option (List DirectLink))
      → Detail
  rxkeyed txkeyed : Option Bool → (node_number : String) → Detail
  link_connected link_disconnected : String → Detail

-- The type is the constructor of `detail`.
pub record Event : Type 0 where
  pub detail : Detail
  pub node : String
  pub callsign : Value

-- `config.node_number` and `config.node_callsign`
pub record Origin : Type 0 where
  pub node : String
  pub callsign : Value

-- An `asyncio.Queue` of a subscriber, by its identity, with the oldest event first.
pub record Queue : Type 0 where
  pub id : ℕ
  pub items : List Event

pub record Listener : Type 0 where
  pub queues : List Queue
  pub next_id : ℕ
  pub polling : Bool
  pub known_nodes : Option (List String)
  pub rxkeyed : Option Bool
  pub txkeyed : Option Bool
  pub sent : List Event

-- `__init__`
abbrev pub init : Listener
init = record {
  queues = [];
  next_id = 0;
  polling = false;
  known_nodes = none;
  rxkeyed = none;
  txkeyed = none;
  sent = [];
}

abbrev pub start : Bool → Listener → Listener
start events_enabled l = if events_enabled then record l { polling = true } else l

abbrev pub stop : Listener → Listener
stop l = record l { polling = false }

abbrev pub subscribe : Listener → Listener
subscribe l = record l {
  queues = record { id = l.next_id; items = [] } ∷ l.queues;
  next_id = suc l.next_id;
}

abbrev pub discard : ℕ → List Queue → List Queue
discard id [] = []
discard id (q ∷ qs) = let rest = discard id qs in if q.id == id then rest else q ∷ rest

abbrev pub unsubscribe : ℕ → Listener → Listener
unsubscribe id l = record l { queues = discard id l.queues }

abbrev pub subscriber_count : Listener → ℕ
subscriber_count l = length l.queues

-- A full queue loses its oldest event.
abbrev pub make_room : List Event → List Event
make_room items = if leb 200 (length items) then drop 1 items else items

abbrev pub deliver : Event → Queue → Queue
deliver event q = record q { items = make_room q.items ++ event ∷ [] }

unfoldable pub broadcast : Event → Listener → Listener
broadcast event l = record l { queues = map (deliver event) l.queues; sent = l.sent ++ event ∷ [] }

unfoldable pub broadcast_all : List Event → Listener → Listener
broadcast_all [] l = l
broadcast_all (event ∷ events) l = broadcast_all events (broadcast event l)

abbrev pub make_event : Origin → Detail → Event
make_event from detail = record { detail = detail; node = from.node; callsign = from.callsign }

abbrev pub is_same_flag : Option Bool → Option Bool → Bool
is_same_flag none none = true
is_same_flag (some true) (some true) = true
is_same_flag (some false) (some false) = true
is_same_flag _ _ = false

abbrev pub snapshot_of : NodeState → Detail
snapshot_of state =
    variables_snapshot state.rx_keyed state.tx_keyed state.is_complete state.state_status
      state.direct_links

-- A gap breaks the continuity of transitions.
abbrev pub forget : Listener → Listener
forget l = record l { known_nodes = none; rxkeyed = none; txkeyed = none }

-- The rounds of the loop over the two fields.
abbrev pub observe_rx : Origin → NodeState → Listener → Listener
observe_rx from state l =
    if is_same_flag state.rx_keyed l.rxkeyed
    then l
    else record (broadcast (make_event from (rxkeyed state.rx_keyed state.node)) l) {
      rxkeyed = state.rx_keyed;
    }

abbrev pub observe_tx : Origin → NodeState → Listener → Listener
observe_tx from state l =
    if is_same_flag state.tx_keyed l.txkeyed
    then l
    else record (broadcast (make_event from (txkeyed state.tx_keyed state.node)) l) {
      txkeyed = state.tx_keyed;
    }

abbrev pub nodes_of : List DirectLink → List String
nodes_of = map (λ link. link.node)

-- What happens to a listener: its methods, a round of `_poll_loop`, and a subscriber that takes
-- an event off its queue.
pub data Action : Type 0 where
  starts : (events_enabled : Bool) → Action
  stops subscribes : Action
  unsubscribes receives : ℕ → Action
  polls : Result NodeState → Action

abbrev pub take_first : ℕ → Queue → Queue
take_first id q = if q.id == id then record q { items = drop 1 q.items } else q

-- `arrange` is the order in which Python iterates over a set.
module _ (arrange : List String → List String) (from : Origin) where
  abbrev pub connected : List String → List String → List Event
  connected current known =
      map (λ node. make_event from (link_connected node)) (arrange (minus current known))

  abbrev pub disconnected : List String → List String → List Event
  disconnected current known =
      map (λ node. make_event from (link_disconnected node)) (arrange (minus known current))

  abbrev pub transitions : List String → Option (List String) → List Event
  transitions current none = []
  transitions current (some known) = connected current known ++ disconnected current known

  abbrev pub observe_links : List String → Listener → Listener
  observe_links current l = record (broadcast_all (transitions current l.known_nodes) l) {
    known_nodes = some current;
  }

  abbrev pub observe_state : NodeState → Effect Listener (Unit {0})
  observe_state state = do
    modify (observe_rx from state)
    modify (observe_tx from state)
    links ← lift (or_raise state.direct_links (type_error "'NoneType' object is not iterable"))
    modify (observe_links (to_set (nodes_of links)))

  -- `_poll_once`, for what the observer's snapshot returns or raises.
  unfoldable pub poll_once : Result NodeState → Effect Listener (Unit {0})
  poll_once snapshot = do
    state ← lift snapshot
    modify (broadcast (make_event from (snapshot_of state)))
    if state.is_complete then observe_state state else modify forget

  unfoldable pub act : Action → Listener → Listener
  unfolding poll_once
  act (starts events_enabled) l = start events_enabled l
  act stops l = stop l
  act subscribes l = subscribe l
  act (unsubscribes id) l = unsubscribe id l
  act (receives id) l = record l { queues = map (take_first id) l.queues }
  act (polls snapshot) l = if l.polling then (poll_once snapshot l).1 else l

  unfoldable pub run : List Action → Listener → Listener
  unfolding act
  run [] l = l
  run (action ∷ actions) l = run actions (act action l)
