-- ===== src/Legacy/Client.antt =====
-- The methods of `AMIClient` that read a snapshot of `Observer`.
use asl3_api.Prelude.{
  ℕ, String, Bool, Option, none, some, List, [], ◌∷◌, map, length, join, format, if◌then◌else◌,
}
use asl3_api.Errors.{runtime_error, type_error, Result, ok, err, or_raise, ◌>>=◌}
use asl3_api.Models.{
  NodeState, DirectLink, LinkMode, letter_t, letter_r, letter_l, letter_c, StateStatus,
}

abbrev adjacency : NodeState → Result (List DirectLink)
adjacency state =
    if state.is_complete
    then or_raise state.direct_links (type_error "'NoneType' object is not iterable")
    else err (runtime_error "STATE_UNKNOWN: direct adjacency evidence is incomplete")

-- `get_connected_nodes`, for what the observer's snapshot returns or raises.
unfoldable pub get_connected_nodes : Result NodeState → Result (List DirectLink)
get_connected_nodes snapshot = do state ← snapshot; adjacency state

abbrev pub link_mode_text : LinkMode → String
link_mode_text letter_t = "T"
link_mode_text letter_r = "R"
link_mode_text letter_l = "L"
link_mode_text letter_c = "C"
link_mode_text LinkMode.unknown = "UNKNOWN"

-- The answer of `get_node_variables`; `ext_txkeyed` and `autopatch_up` are None.
pub record Variables : Type 0 where
  pub rxkeyed : Option Bool
  pub txkeyed : Option Bool
  pub num_links : Option ℕ
  pub links : Option String
  pub num_active_links : Option ℕ
  pub active_links : Option String
  pub is_complete : Bool
  pub state_status : StateStatus

abbrev joined : (DirectLink → String) → Option (List DirectLink) → Option String
joined f none = none
joined f (some links) = some (join "," (map f links))

abbrev counted : Option (List DirectLink) → Option ℕ
counted none = none
counted (some links) = some (length links)

abbrev keyed_letter : Bool → String
keyed_letter keyed = if keyed then "K" else "U"

abbrev active_text : DirectLink → String
active_text link = format (link.node ∷ link_mode_text link.mode ∷ keyed_letter link.keyed ∷ [])

unfoldable pub get_node_variables : Result NodeState → Result Variables
get_node_variables snapshot = do
  state ← snapshot
  ok (record {
    rxkeyed = state.rx_keyed;
    txkeyed = state.tx_keyed;
    num_links = counted state.direct_links;
    links = joined (λ link. link.node) state.direct_links;
    num_active_links = counted state.direct_links;
    active_links = joined active_text state.direct_links;
    is_complete = state.is_complete;
    state_status = state.state_status;
  })
