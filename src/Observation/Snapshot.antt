-- ===== src/Observation/Snapshot.antt =====
-- `unknown`, `parse_snapshot` and `Observer` of vnext/observation.py.
use asl3_api.Prelude.{
  ℕ, ◌+◌, String, Bool, true, false, not, ◌&&◌, ◌||◌, Option, none, some, List, [], ◌∷◌, any, Dict,
  get, format, str_eq, ◌==◌, if◌then◌else◌,
}
use asl3_api.Errors.{
  Exception, value_error, type_error, key_error, protocol_error, validation_error, os_error,
  timeout_error, incomplete_read_error, limit_overrun_error, Result, ok, err, ◌>>◌, ◌>>=◌, raise_if,
  or_raise,
}
use asl3_api.Models.{
  ConnectionStatus, LinkMode, TrafficState, active, clear, complete, state_unknown, DirectLink,
  NodeState, is_node,
}
use asl3_api.Models.Command.{validate_node}
use asl3_api.Transport.{Message}
use asl3_api.Observation.Alinks.{Alink}
use asl3_api.Observation.Native.{is_subset, parse_xstat, parse_sawstat}

-- `NodeState(…)` validates its node.
unfoldable pub node_state : NodeState → Result NodeState
node_state state = raise_if (not (is_node state.node)) validation_error >> ok state

abbrev pub unknown_state : String → String → Option String → String → NodeState
unknown_state at node epoch reason = record {
  node = node;
  observed_at = at;
  connection_epoch = epoch;
  state_status = state_unknown;
  traffic_state = TrafficState.unknown;
  is_complete = false;
  rx_keyed = none;
  tx_keyed = none;
  direct_links = none;
  reasons = reason ∷ [];
}

-- `unknown`, at the time `at`.
unfoldable pub unknown : String → String → Option String → String → Result NodeState
unfolding node_state
unknown at node epoch reason = node_state (unknown_state at node epoch reason)

abbrev pub allstar_of : Result String → Option String
allstar_of (ok node) = some node
allstar_of (err e) = none

abbrev pub mode_of : Option Alink → LinkMode
mode_of none = LinkMode.unknown
mode_of (some alink) = alink.mode

abbrev pub is_contradicted : Option Alink → Bool → Bool
is_contradicted none keyed = false
is_contradicted (some alink) keyed = not (same alink.keyed keyed)
  where
    same : Bool → Bool → Bool
    same true b = b
    same false b = not b

-- The dictionary that the loop appends to `links`.
unfoldable pub link_of : String → ConnectionStatus → Bool → Option Alink → DirectLink
unfolding validate_node
link_of name status keyed alink = record {
  node = name;
  allstar_node = allstar_of (validate_node name);
  mode = mode_of alink;
  keyed = keyed;
  connection_status = status;
}

-- One round of the loop over the connections.
unfoldable pub direct_link : Dict Alink → Dict Bool → String × ConnectionStatus → Result DirectLink
unfolding link_of
direct_link alinks saw_keyed (name, status) = do
  keyed ← or_raise (get saw_keyed name) (key_error name)
  raise_if (is_contradicted (get alinks name) keyed)
      (value_error "Keyed state changed during observation")
  ok (link_of name status keyed (get alinks name))

unfoldable pub direct_links :
    Dict Alink → Dict Bool → Dict ConnectionStatus → Result (List DirectLink)
unfolding direct_link
direct_links alinks saw_keyed [] = ok []
direct_links alinks saw_keyed (c ∷ cs) = do
  link ← direct_link alinks saw_keyed c
  links ← direct_links alinks saw_keyed cs
  ok (link ∷ links)

-- `variables[key] == "1"`
abbrev pub is_one : Option String → Bool
is_one none = false
is_one (some v) = str_eq v "1"

abbrev pub is_active : Bool → Bool → List DirectLink → Bool
is_active rx tx links = rx || tx || any (λ link. link.keyed) links

abbrev pub traffic_of : Bool → TrafficState
traffic_of true = active
traffic_of false = clear

abbrev pub complete_state :
    String → String → String → (rx_keyed tx_keyed : Bool) → List DirectLink → NodeState
complete_state at node epoch rx_keyed tx_keyed links = record {
  node = node;
  observed_at = at;
  connection_epoch = some epoch;
  state_status = complete;
  traffic_state = traffic_of (is_active rx_keyed tx_keyed links);
  is_complete = true;
  rx_keyed = some rx_keyed;
  tx_keyed = some tx_keyed;
  direct_links = some links;
  reasons = [];
}

-- The `try` of `parse_snapshot`.
unfoldable pub combine : String → String → String → Message → Message → Result NodeState
unfolding parse_xstat parse_sawstat direct_links node_state
combine at node epoch xstat sawstat = do
  xdata ← parse_xstat xstat node
  saw_keyed ← parse_sawstat sawstat node
  raise_if (not (is_subset xdata.connections saw_keyed && is_subset saw_keyed xdata.connections))
      (value_error "Direct-link set changed during observation")
  links ← direct_links xdata.alinks saw_keyed xdata.connections
  node_state (
      complete_state at node epoch (is_one (get xdata.variables "RPT_RXKEYED"))
        (is_one (get xdata.variables "RPT_TXKEYED")) links)

-- `except (KeyError, TypeError, ValueError) as exc`, whose text `str(exc)` becomes the reason. A
-- `KeyError` shows its key in quotes, and pydantic's text of a failed validation is not modelled.
unfoldable pub caught : String → String → String → Result NodeState → Result NodeState
unfolding unknown
caught at node epoch (ok state) = ok state
caught at node epoch (err (value_error text)) = unknown at node (some epoch) text
caught at node epoch (err (type_error text)) = unknown at node (some epoch) text
caught at node epoch (err (key_error key)) =
    unknown at node (some epoch) (format ("'" ∷ key ∷ "'" ∷ []))
caught at node epoch (err validation_error) = unknown at node (some epoch) "validation error"
caught at node epoch (err e) = err e

unfoldable pub parse_snapshot : String → String → String → Message → Message → Result NodeState
unfolding combine caught
parse_snapshot at node epoch xstat sawstat =
    caught at node epoch (combine at node epoch xstat sawstat)

-- The exceptions that `Observer.snapshot` catches.
abbrev pub is_caught : Exception → Bool
is_caught os_error = true
is_caught timeout_error = true
is_caught incomplete_read_error = true
is_caught limit_overrun_error = true
is_caught (protocol_error text) = true
is_caught (value_error text) = true
is_caught validation_error = true
is_caught _ = false

-- What `transport.observe` gives: the two responses and their connection's epoch, or an exception.
abbrev pub Observed : Type 0
Observed = Result (Message × Message × String)

module _ (at uuid node : String) where
  abbrev pub unavailable : Result NodeState → Result NodeState
  unavailable (ok state) = ok state
  unavailable (err e) =
      if is_caught e then unknown at node (some uuid) "AMI_OBSERVATION_UNAVAILABLE" else err e

  -- `Observer.snapshot` under its lock: the generation was `before` when the lock was acquired, and is
  -- `after` at the answer.
  unfoldable pub snapshot : (before after : ℕ) → Observed → Result NodeState
  unfolding unknown parse_snapshot
  snapshot before after (err e) = unavailable (err e)
  snapshot before after (ok (xstat, sawstat, epoch)) = unavailable (
      if not (before == after)
      then unknown at node (some epoch) "STALE_CONNECTION_EPOCH"
      else parse_snapshot at node epoch xstat sawstat)

-- `Observer.invalidate`
abbrev pub invalidate : ℕ → ℕ
invalidate generation = generation + 1
