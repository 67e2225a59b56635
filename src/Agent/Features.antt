-- ===== src/Agent/Features.antt =====
-- GET /capabilities of asl_agent.py: a node's features as its configuration has them.
use asl3_api.Prelude.{ℕ, String, Bool, true, false, Option, List, [], ◌∷◌, if◌then◌else◌}
use asl3_api.Errors.{Result, ok, ◌>>=◌}
use asl3_api.Config.{ℤ, pos, Value, null, bool, int, str, seq, dict, end, entry, nil}
use asl3_api.Config.Properties.{
  node_callsign, webhooks_enabled, connect_timeout, disconnect_timeout, rate_limit,
}
use asl3_api.Http.Stream.{events_enabled}
use asl3_api.Http.Problems.{supported_announcements}
use asl3_api.Http.Resources.{texts}
use asl3_api.Agent.Routes.{verify_api_key}

abbrev pub event_types : List String
event_types =
    "node.rxkeyed" ∷ "node.txkeyed" ∷ "node.variables.snapshot" ∷ "link.connected"
    ∷ "link.disconnected" ∷ "health.ami" ∷ []

unfoldable pub legacy_features : Value → Value
unfolding events_enabled
legacy_features config = dict (
    entry "sse_events" (bool (events_enabled config)) (
      entry "webhooks" (bool (webhooks_enabled config)) (
        entry "node_cache" (bool true) (
          entry "node_enrichment" (bool true) (
            entry "dtmf" (bool false) (
              entry "macros" (bool false)
                (entry "announcements" (seq (texts supported_announcements)) end)))))))

abbrev unavailable : Value
unavailable = dict (
    entry "dtmf"
      (str
        "Disabled since 1.4.2 pending safety redesign. The prior implementation issued an invalid app_rpt command and never executed. POST /dtmf returns 503.")
      (entry "macros"
        (str
          "Disabled since 1.4.2 pending safety redesign. The prior implementation issued a command app_rpt ignored and never executed. POST /macro returns 503.")
        end))

abbrev endpoints : Bool → Value
endpoints has_events = dict (
    entry "events_stream" (if has_events then str "/events" else null)
      (entry "rest_docs" (str "/docs") (entry "redoc" (str "/redoc") end)))

abbrev notes : (connect disconnect limit : ℤ) → Value
notes connect disconnect limit = dict (
    entry "connect_timeout_seconds" (int connect) (
      entry "disconnect_timeout_seconds" (int disconnect) (
        entry "node_cache_refresh_seconds" (int (pos 900))
          (entry "rate_limit_per_minute" (int limit) end))))

-- `digit` gives the values of Unicode's decimal digits.
unfoldable pub get_capabilities :
    (digit : ℕ → Option ℕ) (node : String) (config : Value) → Option String → Result Value
unfolding legacy_features events_enabled
get_capabilities digit node config key = do
  _ ← verify_api_key config "GET" key
  connect ← connect_timeout digit config
  disconnect ← disconnect_timeout digit config
  limit ← rate_limit digit config
  ok (
      dict (
        entry "node" (str node) (
          entry "callsign" (node_callsign config) (
            entry "api_version" (str "1.4.2") (
              entry "features" (legacy_features config) (
                entry "unavailable" unavailable (
                  entry "endpoints" (endpoints (events_enabled config)) (
                    entry "event_types"
                      (seq (if events_enabled config then texts event_types else nil))
                      (entry "notes" (notes connect disconnect limit) end)))))))))
