-- ===== src/Tests/Policy.antt =====
-- The policy on an idle node and on one of unknown state.
use asl3_api.Prelude.{split, format, ◌≡◌, refl}
use asl3_api.Errors.{ok}
use asl3_api.Config as Config
use asl3_api.Config.{Value, str, dict, Entries, end, entry}
use asl3_api.Models.{link_node, TrafficState, NodeState}
use asl3_api.Policy.{setting, is_allow, enforce_traffic, enforce}
use asl3_api.Tests.Service.{idle_state}

-- Links are allowed on active traffic.
abbrev lenient : Entries
lenient =
    entry "policy"
      (dict (
        entry "traffic" (dict (entry "link_node" (dict (entry "active" (str "allow") end)) end))
          end))
      end

abbrev busy_state : NodeState
busy_state = record idle_state { traffic_state = TrafficState.active }

busy_allowed : enforce (dict lenient) link_node busy_state ≡ ok tt
unfolding enforce enforce_traffic setting is_allow Config.get Config.get_path Config.get_entry split
    format
busy_allowed = refl
