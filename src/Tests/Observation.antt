-- ===== src/Tests/Observation.antt =====
-- A snapshot of a node with one link, and one whose connection was replaced.
use asl3_api.Prelude.{
  none, List, ◌++◌, any, true, false, some, [], ◌∷◌, partition, Dict, All, join, get, put, split,
  format, count, all_chars, ◌≡◌, refl,
}
use asl3_api.Errors.{Result, ok}
use asl3_api.Models.{is_node, established, letter_t, letter_r, NodeState}
use asl3_api.Models.Command.{validate_node}
use asl3_api.Transport.{Message, one, many, lower, is_infix, starts}
use asl3_api.Observation.{is_link_name, safe_name, field, listed, values, only, scalar, words}
use asl3_api.Observation.RoundTrip.{print_alinks, IsEntry, HasDistinctNames, parse_alinks-print}
use asl3_api.Observation.Alinks.{
  Alink, is_count, read_letters, add_entry, add_token, add_tokens, add_all, parse_texts,
  parse_alinks,
}
use asl3_api.Observation.Native.{
  add_variable, add_variables, is_duration, begins_with_word, xstat_groups, xstat_conn,
  sawstat_groups, sawstat_conn, add_conn, add_conns, read_connections, parse_xstat, parse_sawstat,
}
use asl3_api.Observation.Snapshot.{
  node_state, unknown, link_of, direct_link, direct_links, combine, complete_state, caught,
  parse_snapshot, snapshot,
}
use asl3_api.Observation.Laws.{Observes, parse_snapshot-Observes}
use asl3_api.Observation.Evidence.{IsEvidence, parse_snapshot-IsEvidence}
use asl3_api.Observation.Observer.{
  Observer, Action, calls, acquires, invalidates, answers, act, run, is_invalidation,
}
use asl3_api.Observation.Invalidated.{IsSound, run-IsSound}

-- All that a snapshot computes with.
sampling : Unit {0}
unfolding is_node validate_node lower is_infix starts is_link_name safe_name field listed values
    only scalar words is_count read_letters add_entry add_token add_tokens add_all parse_texts
    parse_alinks partition add_variable add_variables is_duration begins_with_word xstat_groups
    xstat_conn sawstat_groups sawstat_conn add_conn add_conns read_connections parse_xstat
    parse_sawstat node_state unknown link_of direct_link direct_links combine caught parse_snapshot
    snapshot get put split format count all_chars
sampling = tt

abbrev xstat : Message
xstat =
    ("response", one "Success")
    ∷ ("node", one "2000")
    ∷ (
      "var",
      many (
          "RPT_RXKEYED=0" ∷ "RPT_TXKEYED=0" ∷ "RPT_NUMALINKS=1" ∷ "RPT_ALINKS=1,2001TU"
          ∷ "RPT_LINKS=1,T2001" ∷ []),
    )
    ∷ ("conn", many ("2001 192.0.2.7 0 OUT 00:01:02 ESTABLISHED" ∷ []))
    ∷ []

abbrev sawstat : Message
sawstat =
    ("response", one "Success") ∷ ("node", one "2000") ∷ ("conn", many ("2001 0 -1 -1" ∷ [])) ∷ []

abbrev idle : NodeState
idle = complete_state "2026-01-01T00:00:00+00:00" "2000" "e" false false (
    record {
      node = "2001";
      allstar_node = some "2001";
      mode = letter_t;
      keyed = false;
      connection_status = established;
    }
    ∷ [])

valid_2000 : is_node "2000" ≡ true
unfolding sampling
valid_2000 = refl

idle_snapshot : parse_snapshot "2026-01-01T00:00:00+00:00" "2000" "e" xstat sawstat ≡ ok idle
unfolding sampling
idle_snapshot = refl

parse_snapshot-Observes_example :
    Observes "2000" (parse_snapshot "2026-01-01T00:00:00+00:00" "2000" "e" xstat sawstat)
parse_snapshot-Observes_example =
    parse_snapshot-Observes "2026-01-01T00:00:00+00:00" "2000" valid_2000 "e" xstat sawstat

parse_snapshot-IsEvidence_example : IsEvidence "2000" xstat sawstat idle
parse_snapshot-IsEvidence_example =
    parse_snapshot-IsEvidence "2026-01-01T00:00:00+00:00" "2000" valid_2000 "e" xstat sawstat
      idle_snapshot refl

-- Two calls wait. The first gets the lock; another call begins, and the connection is replaced.
abbrev two_calls : Observer
two_calls = record { generation = 0; holder = none; waiting = 0 ∷ 1 ∷ []; answers = [] }

abbrev replaced : List Action
replaced = calls 2 ∷ invalidates ∷ []

run-IsSound_example :
    (r : Result NodeState) × ((act "2000"
        (answers "2026-01-01T00:00:00+00:00" "u" (ok (xstat, sawstat, "e")))
        (run "2000" replaced (act "2000" acquires two_calls))).answers
      ≡ [] ++ (0, r) ∷ [])
    × IsSound "2000" "2026-01-01T00:00:00+00:00"
        (ok (xstat, sawstat, "e"))
        (any is_invalidation replaced)
        r
run-IsSound_example =
    run-IsSound "2000" valid_2000 two_calls 0 (1 ∷ []) replaced "2026-01-01T00:00:00+00:00" "u"
      (ok (xstat, sawstat, "e")) refl refl (refl, (refl, tt)) refl

abbrev two_links : Dict Alink
two_links =
    ("2001", record { mode = letter_t; keyed = false })
    ∷ ("W5ABC", record { mode = letter_r; keyed = true })
    ∷ []

two_printed : print_alinks "2" two_links ≡ "2,2001TU,W5ABCRK"
unfolding join
two_printed = refl

two_count : is_count "2" ≡ true
unfolding sampling
two_count = refl

two_entries : All IsEntry two_links
unfolding sampling
two_entries = ((refl, refl), ((refl, refl), tt))

two_names : HasDistinctNames two_links
unfolding sampling
two_names = (refl, (refl, tt))

parse_alinks-print_example :
    parse_alinks (some (print_alinks "2" two_links)) (some "2") ≡ ok two_links
parse_alinks-print_example = parse_alinks-print "2" two_links two_count refl two_entries two_names
