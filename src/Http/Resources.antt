-- ===== src/Http/Resources.antt =====
-- The other read-only routes of vnext/api.py: the state, the capabilities and the directory. The JSON
-- object of an answer is a `Value`.
use asl3_api.Prelude.{ℕ, String, true, false, Option, none, some, List, [], ◌∷◌, if◌then◌else◌}
use asl3_api.Errors.{problem, Result, ok, err, ◌>>=◌, ◌>>◌}
use asl3_api.Models.{Kind, link_node, unlink_node, unlink_all, announce, NodeState, is_node}
use asl3_api.Config.{pos, Value, null, bool, int, str, seq, dict, Items, nil, cons, end, entry}
use asl3_api.Policy.{on_active, on_unknown, setting}
use asl3_api.Transport.{Message}
use asl3_api.Software
use asl3_api.Directory.{NodeCache, NodeInfo, lookup, last_updated}
use asl3_api.Service.{Platform, Settings}
use asl3_api.Service.Evidence.{software_evidence}
use asl3_api.Http.Auth.{observe, authenticate}
use asl3_api.Http.Routes.{control_enabled}
use asl3_api.Http.Stream.{events_enabled}
use asl3_api.Http.Problems.{supported_announcements}

abbrev pub texts : List String → Items
texts [] = nil
texts (t ∷ ts) = cons (str t) (texts ts)

abbrev pub text_or_null : Option String → Value
text_or_null none = null
text_or_null (some s) = str s

abbrev pub number_or_null : Option ℕ → Value
number_or_null none = null
number_or_null (some n) = int (pos n)

-- The dependency `platform`: `app.state.platform`, once the runtime has started.
abbrev pub running : Option Platform → Result Platform
running none = err (problem 503 "CONTROL_UNAVAILABLE")
running (some p) = ok p

-- GET /node/state, for what the observer's snapshot returns or raises.
unfoldable pub state :
    Settings → Option String → Option Platform → Result NodeState → Result NodeState
state c key runtime snapshot = do
  _ ← authenticate c.config key observe
  _ ← running runtime
  snapshot

-- `TrafficPolicy.characteristics`
unfoldable pub kind_policy : Value → Kind → Value
kind_policy config kind = dict (
    entry "active" (setting config kind on_active)
      (entry "unknown" (setting config kind on_unknown) end))

unfoldable pub characteristics : Value → Value
unfolding kind_policy
characteristics config = dict (
    entry "link_node" (kind_policy config link_node) (
      entry "announce" (kind_policy config announce) (
        entry "unlink_node" (kind_policy config unlink_node)
          (entry "unlink_all" (kind_policy config unlink_all) end))))

-- The dictionaries of `_entry` and `evidence`.
abbrev pub version_entry : Software.Entry → Value
version_entry e = dict (
    entry "version" (text_or_null e.version)
      (entry "detected" (bool e.detected) (entry "source" (str e.source) end)))

abbrev pub evidence_block : Software.Entry → Software.Entry → Value
evidence_block asterisk app_rpt = dict (
    entry "method" (str "read-only local AMI reads; no node targeting and no control dispatch")
      (entry "asterisk" (version_entry asterisk) (entry "app_rpt" (version_entry app_rpt) end)))

abbrev pub operations_supported : List String
operations_supported = "link_node" ∷ "unlink_node" ∷ "unlink_all" ∷ "announce" ∷ []

unfoldable pub features : Value → Platform → Value
unfolding events_enabled control_enabled
features config p = dict (
    entry "fresh_state" (bool true) (
      entry "directory" (bool true) (
        entry "operations" (bool true) (
          entry "sse_snapshots" (bool (events_enabled config)) (
            entry "control_enabled" (bool (control_enabled p)) (
              entry "supported_operations" (seq (texts operations_supported)) (
                entry "announcements" (seq (texts supported_announcements)) (
                  entry "dtmf" (bool false) (
                    entry "macros" (bool false) (
                      entry "idempotency" (bool true) (
                        entry "single_control_owner" (bool true)
                          (entry "automatic_control_replay" (bool false) end))))))))))))

-- The answer of GET /capabilities.
unfoldable pub capabilities_of : Settings → Platform → Software.Entry → Software.Entry → Value
unfolding features characteristics
capabilities_of c p asterisk app_rpt = dict (
    entry "node" (str c.node) (
      entry "api_version" (str "1") (
        entry "result_contract_version" (str "1.0") (
          entry "backend" (str "app_rpt-native-ami") (
            entry "backend_contract_version" (str "app_rpt-rptstatus/1") (
              entry "backend_software_version" (text_or_null app_rpt.version) (
                entry "backend_software_version_detected" (bool app_rpt.detected) (
                  entry "backend_software" (evidence_block asterisk app_rpt) (
                    entry "observation"
                      (dict (
                        entry "source" (str "RptStatus/XStat+SawStat") (
                          entry "fresh_per_request" (bool true)
                            (entry "unknown_is_fail_closed_for_correctness" (bool true) end))))
                      (entry "features" (features c.config p) (
                        entry "idempotency"
                          (dict (
                            entry "header" (str "Idempotency-Key") (
                              entry "scope" (str "configured node and credential name")
                                (entry "retention" (str "indefinite in v1") end))))
                          (entry "traffic_policy" (characteristics c.config) (
                            entry "events"
                              (dict (
                                entry "delivery" (str "periodic fresh snapshots") (
                                  entry "authentication" (str "X-API-Key header")
                                    (entry "replay" (bool false) end))))
                              end)))))))))))))

-- GET /capabilities, for what the version probe returns or raises.
unfoldable pub capabilities :
    Settings → Option String → Option Platform → Result (Message × Message) → Result Value
unfolding capabilities_of
capabilities c key runtime probe = do
  _ ← authenticate c.config key observe
  p ← running runtime
  found ← software_evidence probe
  ok (capabilities_of c p found.0 found.1)

-- GET /directory/{node}
unfoldable pub directory_of : NodeInfo → Option ℕ → Value
directory_of info updated = dict (
    entry "node" (str info.node) (
      entry "callsign" (text_or_null info.callsign) (
        entry "description" (text_or_null info.description) (
          entry "location" (text_or_null info.location) (
            entry "source" (str "public-directory-cache") (
              entry "last_updated" (number_or_null updated)
                (entry "authoritative_for_target_validity" (bool false) end)))))))

unfoldable pub directory : Settings → Option String → NodeCache → String → Result Value
unfolding directory_of
directory c key cache node = do
  _ ← authenticate c.config key observe
  if is_node node then ok tt else err (problem 422 "INVALID_REQUEST")
  ok (directory_of (lookup cache node) (last_updated cache))
