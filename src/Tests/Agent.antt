-- ===== src/Tests/Agent.antt =====
-- The old routes, and an audit log of two entries.
use asl3_api.Prelude.{
  Bool, String, true, false, none, some, [], ◌∷◌, length, all_chars, count, is_digit, format, ◌≡◌,
  refl,
}
use asl3_api.Models.{is_node}
use asl3_api.Config.{pos}
use asl3_api.Software.{strip, strip_right}
use asl3_api.Transport.{starts}
use asl3_api.Http.Routes.{post_link, control_route, dump_link}
use asl3_api.Agent.Routes.{connect, connect_mode, Caller, validates, legacy_route}
use asl3_api.Agent.Aliases.{caller, call, legacy_route-alias}
use asl3_api.Agent.Audit.{
  audit_log, universal, readlines, recent, cut_bar, read_entry, read_entries, get_audit_log,
}
use asl3_api.Agent.RoundTrip.{entry_of, get_audit_log-audit_log}
use asl3_api.Agent.Lifespan.{
  Step, validates_config, starts_runtime, connects_client, starts_handler, starts_directory,
  closes_runtime, stops_listener, stops_handler, stops_directory, disconnects_client, has_step,
  lifespan, body, cleanup, lifespan_cleanup,
}
use asl3_api.Tests.Http.{secured, ready}

unfoldable agent : Unit {0}
unfolding validates is_node all_chars count strip strip_right audit_log format readlines universal
    recent cut_bar read_entry read_entries get_audit_log starts
agent = tt

legacy_route-alias_example :
    legacy_route is_digit secured (connect "2001" true) (caller "k1" (some "again")) ready
    ≡ control_route secured post_link
        (call "k1"
          (some "again")
          ""
          (dump_link (record { node = "2001"; mode = connect_mode true })))
        ready
unfolding agent
legacy_route-alias_example =
    legacy_route-alias "k1" (some "again") is_digit secured (connect "2001" true) ready refl refl

abbrev sender : Caller
sender = record { api_key = some "k1"; idempotency_key = none; limited = false }

abbrev log : String
log = "2026-01-01T00:00:00+00:00 | events/connect | clients=1\n"

get_audit_log-audit_log_example :
    get_audit_log (pos 1) (audit_log true "t2" "dtmf/rejected" "sequence=*70 | x" (some log))
    ≡ entry_of "t2" "dtmf/rejected" "sequence=*70 | x" ∷ []
unfolding agent
get_audit_log-audit_log_example =
    get_audit_log-audit_log (some log) "t2" "dtmf/rejected" "sequence=*70 | x" refl refl refl refl
      refl

-- Zero lines are asked for, and the whole log is returned.
zero_lines : length (get_audit_log (pos 0) (some log)) ≡ 1
unfolding agent
zero_lines = refl

-- An entry that was written without details is read with another command.
no_details :
    get_audit_log (pos 1) (audit_log true "t2" "start" "" none)
    ≡ record { timestamp = "t2"; command = some "start |"; details = none; raw = "t2 | start |" }
      ∷ []
unfolding agent
no_details = refl

-- The node directory cannot start.
abbrev fails : Step → Bool
fails starts_directory = true
fails _ = false

lifespan_test :
    lifespan fails true
    ≡ validates_config ∷ starts_runtime ∷ connects_client ∷ starts_handler ∷ starts_directory
      ∷ closes_runtime ∷ stops_listener ∷ stops_handler ∷ stops_directory ∷ disconnects_client ∷ []
unfolding lifespan body cleanup
lifespan_test = refl

lifespan_cleanup_example :
    (has_step connects_client (lifespan fails true) ≡ true)
    × (has_step closes_runtime (lifespan fails true) ≡ true)
    × (has_step disconnects_client (lifespan fails true) ≡ true)
lifespan_cleanup_example = lifespan_cleanup fails true
