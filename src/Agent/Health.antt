-- ===== src/Agent/Health.antt =====
-- The health and node routes of asl_agent.py. The JSON object of an answer is a `Value`.
use asl3_api.Prelude.{
  ℕ, String, Bool, Option, none, List, [], ◌∷◌, Dict, put, has, length, show, format, if◌then◌else◌,
}
use asl3_api.Errors.{problem, Exception, Result, ok, err}
use asl3_api.Errors as Errors
use asl3_api.Effects.{Effect, pure, lift, modify, ◌>>=◌, ◌>>◌}
use asl3_api.Models.{NodeState, DirectLink}
use asl3_api.Config.{pos, Value, bool, int, str, dict, end, entry}
use asl3_api.Config.Properties.{node_callsign}
use asl3_api.Directory.{NodeCache, size, last_updated, enrich_node_list}
use asl3_api.Events.Listener.{Listener, subscriber_count}
use asl3_api.Legacy.Client.{get_connected_nodes, Variables, get_node_variables}
use asl3_api.Legacy.Control.{Client, check_ami_health, send_command}
use asl3_api.Legacy.Reports.{Stats, parse_stats_response}
use asl3_api.Transport.{Field}
use asl3_api.Http.Stream.{events_enabled}
use asl3_api.Http.Resources.{number_or_null}
use asl3_api.Agent.Audit.{audit_log}
use asl3_api.Agent.Routes.{verify_api_key}

-- GET /ping, for what the ping of the AMI returns or raises. No key is asked for.
unfoldable pub ping :
    (node : String) (config : Value) → Result (Unit {0}) → Listener → Client → Value × Client
unfolding check_ami_health
ping node config answer l client =
    let (ami_ok, client') = check_ami_health answer client in
    (
      dict (
          entry "service" (str "ASL3-API") (
            entry "node" (str node) (
              entry "callsign" (node_callsign config) (
                entry "ami_connected" (bool ami_ok)
                  (entry "sse_clients" (int (pos (subscriber_count l))) end))))),
      client',
    )

-- GET /version, for the version of Python. No key is asked for.
unfoldable pub version : (node python : String) (config : Value) → NodeCache → Listener → Value
unfolding events_enabled
version node python config cache l = dict (
    entry "version" (str "1.4.2") (
      entry "python" (str python) (
        entry "node" (str node) (
          entry "callsign" (node_callsign config) (
            entry "node_cache_size" (int (pos (size cache))) (
              entry "node_cache_last_updated" (number_or_null (last_updated cache)) (
                entry "sse_clients" (int (pos (subscriber_count l)))
                  (entry "events_enabled" (bool (events_enabled config)) end))))))))

-- `except Exception` of the node routes: the 500.
abbrev pub or_500 {ℓ} : {A : Type ℓ} → Result A → Result A
or_500 (ok a) = ok a
or_500 (err e) = err (problem 500 "")

-- The entry of the audit log that follows a result.
abbrev logged {ℓ} : {A : Type ℓ} → Result A → Option String → Option String → Option String
logged (ok a) log log' = log'
logged (err e) log log' = log

-- `n.setdefault(key, None)`
abbrev pub set_default : Dict (Option String) → String → Dict (Option String)
set_default d key = if has d key then d else put d key none

abbrev pub with_defaults : List (Dict (Option String)) → List (Dict (Option String))
with_defaults [] = []
with_defaults (d ∷ ds) =
    set_default (set_default (set_default d "callsign") "description") "location" ∷ with_defaults ds

-- GET /nodes, for what the observer's snapshot returns or raises. A node is the dict of its fields.
module _ (fields_of : DirectLink → Dict (Option String)) where
  abbrev pub node_dicts : List DirectLink → List (Dict (Option String))
  node_dicts [] = []
  node_dicts (link ∷ links) = fields_of link ∷ node_dicts links

  unfoldable pub listed_nodes :
      (enrich : Bool) → NodeCache → List DirectLink → List (Dict (Option String))
  unfolding enrich_node_list
  listed_nodes enrich cache links =
      if enrich then enrich_node_list cache (node_dicts links) else with_defaults (node_dicts links)

  abbrev pub nodes_details : ℕ → String
  nodes_details n = format (show n ∷ " connected" ∷ [])

  unfoldable pub get_nodes :
      (config : Value) (key : Option String) (enrich writes : Bool) (timestamp : String)
      → NodeCache
      → Result NodeState
      → Effect (Option String) (List (Dict (Option String)))
  unfolding listed_nodes audit_log
  get_nodes config key enrich writes timestamp cache snapshot = do
    lift (verify_api_key config "GET" key)
    links ← lift (or_500 (get_connected_nodes snapshot))
    modify (
        audit_log writes timestamp "nodes"
          (nodes_details (length (listed_nodes enrich cache links))))
    pure (listed_nodes enrich cache links)

-- `AMIClient.get_node_stats` and GET /status, for what the AMI answers to the command.
module _ (digit : ℕ → Option ℕ) where
  abbrev pub stats_command : String → String
  stats_command node = format ("rpt stats " ∷ node ∷ [])

  unfoldable pub get_node_stats : String → Result (Option Field) → Effect Client Stats
  unfolding send_command parse_stats_response
  get_node_stats node answer = do
    output ← send_command answer (stats_command node)
    pure (parse_stats_response digit output)

  -- The client and the audit log are what a request can change.
  unfoldable pub get_status :
      (config : Value) (key : Option String) (node : String) (writes : Bool) (timestamp : String)
      → Result (Option Field)
      → Client × Option String
      → Result Stats × (Client × Option String)
  unfolding get_node_stats audit_log
  get_status config key node writes timestamp answer (client, log) =
      go (verify_api_key config "GET" key)
    where
      go : Result Value → Result Stats × (Client × Option String)
      go (err e) = (err e, (client, log))
      go (ok name) =
          let (stats, client') = get_node_stats node answer client in
          (or_500 stats, (client', logged stats log (audit_log writes timestamp "status" "" log)))

-- GET /variables
unfoldable pub get_variables :
    (config : Value) → Option String → Result NodeState → Result Variables
unfolding get_node_variables
get_variables config key snapshot =
    Errors.◌>>=◌ (verify_api_key config "GET" key) λ name. or_500 (get_node_variables snapshot)
