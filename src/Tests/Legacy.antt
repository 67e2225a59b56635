-- ===== src/Tests/Legacy.antt =====
-- The old client, connected, is asked to link and to identify.
use asl3_api.Prelude.{
  ℕ, ltb, if◌then◌else◌, count, true, false, none, some, List, [], ◌∷◌, format, split, join,
  partition, show, ◌≡◌, refl,
}
use asl3_api.Errors.{Result, ok, err, runtime_error}
use asl3_api.Models.{DirectLink}
use asl3_api.Transport.{one, many, is_infix, starts}
use asl3_api.Software.{strip, strip_right}
use asl3_api.Legacy.Output.{
  Response, chunks, lines_of, without_return, trimmed, normalize_ami_output, ami_failure_detail,
  rejection_reason,
}
use asl3_api.Legacy.Control.{Client, connect_node, control}
use asl3_api.Legacy.Control.Refused.{control-refused}
use asl3_api.Legacy.Durations.{
  ascii_digit, int_of, parse_uptime, parse_tx_time, uptime_display, tx_display,
}
use asl3_api.Legacy.Reports.{
  number, text, no_stats, no_variables, parse_stats_response, read_stats, count_of, without_dots,
  parse_nodes_response, nodes_in, nodes_of, parse_variables_response, read_variables,
}
use asl3_api.Config.{pos}
use asl3_api.Tests.Events.{link}

unfoldable reading : Unit {0}
unfolding chunks lines_of without_return trimmed normalize_ami_output ami_failure_detail
    rejection_reason strip strip_right split join format is_infix starts
reading = tt

unfoldable parsing : Unit {0}
unfolding parse_stats_response read_stats count_of without_dots parse_nodes_response nodes_in
    nodes_of parse_variables_response read_variables int_of parse_uptime parse_tx_time
    uptime_display tx_display show split partition strip strip_right count format join is_infix
    starts
parsing = tt

abbrev client : Client
client = record { has_manager = true; connected = true; sent = [] }

abbrev answer : Response
answer = record {
  output_entry = some (many ("Unknown action name x.\r\n  " ∷ []));
  output_attribute = none;
  content_entry = some "";
  content_attribute = none;
  success = some true;
  message = none;
  response_code = some "Success";
}

rejected_test : rejection_reason answer ≡ some "Unknown action name x."
unfolding reading
rejected_test = refl

-- The link is there at the third look.
abbrev look : ℕ → Result (List DirectLink)
look k = if ltb k 2 then ok [] else ok (link ∷ [])

control-refused_example :
    control "2000" (connect_node "2001" false) (ok answer) look 12 8 client
    ≡ (err (runtime_error "Control requires the durable v1 operation service"), client)
control-refused_example =
    control-refused "2000" (connect_node "2001" false) (ok answer) look 12 8 client

stats_test :
    parse_stats_response ascii_digit (
      some (
        many (
          "Uptime...........: 63:47:58" ∷ "Keyups today.....: 12"
          ∷ "Last DTMF command executed: N/A" ∷ [])))
    ≡ record no_stats {
      uptime = some (record { raw = "63:47:58"; seconds = some 229678; display = "63h 47m 58s" });
      keyups_today = some (number (pos 12));
    }
unfolding parsing
stats_test = refl

nodes_test :
    parse_nodes_response (some (one " T427060, M516596,54199,\r"))
    ≡ record { node = "427060"; mode = "T" }
      ∷ record { node = "516596"; mode = "M" }
      ∷ record { node = "54199"; mode = "" }
      ∷ []
unfolding parsing
nodes_test = refl

variables_test :
    parse_variables_response ascii_digit
      (some (many ("Variables" ∷ "  RPT_RXKEYED=1" ∷ "RPT_LINKS=0" ∷ "RPT_NUMLINKS=x" ∷ [])))
    ≡ record no_variables { rxkeyed = some true; num_links = some (text "x") }
unfolding parsing
variables_test = refl
