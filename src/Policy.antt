-- ===== src/Policy.antt =====
-- `TrafficPolicy` of vnext/policy.py.
pub mod Laws
use asl3_api.Prelude.{String, Bool, true, false, List, [], ◌∷◌, format, str_eq, if◌then◌else◌}
use asl3_api.Errors.{problem, Result, ok, err}
use asl3_api.Config.{Value, str}
use asl3_api.Config
use asl3_api.Models.{
  Kind, link_node, unlink_node, unlink_all, announce, TrafficState, active, clear, NodeState,
}
use asl3_api.Ledger.Canonical.{kind_text}

pub data PolicyState : Type 0 where
  on_active on_unknown : PolicyState

-- `_DEFAULTS`, where both states of a kind have one value.
abbrev pub default_setting : Kind → String
default_setting link_node = "deny"
default_setting announce = "deny"
default_setting unlink_node = "allow"
default_setting unlink_all = "allow"

abbrev pub state_text : PolicyState → String
state_text on_active = "active"
state_text on_unknown = "unknown"

unfoldable pub setting : Value → Kind → PolicyState → Value
setting config kind state =
    Config.get config (format ("policy.traffic." ∷ kind_text kind ∷ "." ∷ state_text state ∷ []))
      (str (default_setting kind))

-- `… == "allow"`
unfoldable pub is_allow : Value → Bool
is_allow (str s) = str_eq s "allow"
is_allow _ = false

-- The decision for a traffic state; the last raise of the source needs a fourth state.
unfoldable pub enforce_traffic : Value → Kind → TrafficState → Result (Unit {0})
unfolding setting is_allow
enforce_traffic config kind clear = ok tt
enforce_traffic config kind active =
    if is_allow (setting config kind on_active)
    then ok tt
    else err (problem 409 "POLICY_DENIED_ACTIVE_TRAFFIC")
enforce_traffic config kind TrafficState.unknown =
    if is_allow (setting config kind on_unknown)
    then ok tt
    else err (problem 409 "POLICY_DENIED_STATE_UNKNOWN")

unfoldable pub enforce : Value → Kind → NodeState → Result (Unit {0})
unfolding enforce_traffic
enforce config kind node_state = enforce_traffic config kind node_state.traffic_state
