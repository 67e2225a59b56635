-- ===== src/Tests/Streams.antt =====
-- Two event streams, and what their clients read.
use asl3_api.Prelude.{
  String, true, some, List, [], ◌∷◌, ◌++◌, map, split, partition, format, join, all_chars, ◌≡◌,
  refl, arith,
}
use asl3_api.Errors.{ok, err, timeout_error}
use asl3_api.Models.{NodeState, StateStatus, complete, state_unknown}
use asl3_api.Legacy.Client.{Variables}
use asl3_api.Events.Listener.{
  Detail, variables_snapshot, rxkeyed, txkeyed, link_connected, link_disconnected, Event, Queue,
  make_event,
}
use asl3_api.Http.Frames.{body, read_events, read_lines}
use asl3_api.Http.Frames.Read.{is_inline}
use asl3_api.Http.Stream.{Round, gone, sample, stream, taken, read_events-stream}
use asl3_api.Agent.Stream.{Turn, waits, type_text, generator}
use asl3_api.Agent.Delivered.{as_read, greeted, reached, generator-reads}
use asl3_api.Tests.Service.{idle_state}
use asl3_api.Tests.Events.{linked_state, origin}

-- A short text instead of the JSON of a snapshot.
abbrev status_text : StateStatus → String
status_text complete = "{\"complete\": true}"
status_text state_unknown = "{\"complete\": false}"

abbrev dump_state : NodeState → String
dump_state s = status_text s.state_status

status_inline : (s : StateStatus) → all_chars is_inline (status_text s) ≡ true
unfolding all_chars
status_inline complete = refl
status_inline state_unknown = refl

abbrev polls : List Round
polls = sample (ok idle_state) ∷ sample (ok linked_state) ∷ gone ∷ sample (ok idle_state) ∷ []

read_test :
    read_events (body (stream dump_state polls).0)
    ≡ ("node.state", "{\"complete\": true}") ∷ ("node.state", "{\"complete\": true}") ∷ []
unfolding read_events read_lines body stream split partition format join
read_test = refl

read_events-stream_example :
    read_events (body (stream dump_state polls).0)
    ≡ map (λ s. ("node.state", dump_state s)) (taken dump_state polls)
read_events-stream_example = read_events-stream dump_state (λ s. status_inline s.state_status) polls

abbrev dump_event : Event → String
dump_event e = type_text e.detail

abbrev dump_variables : Variables → String
dump_variables v = status_text v.state_status

event_inline : (d : Detail) → all_chars is_inline (type_text d) ≡ true
unfolding all_chars
event_inline (variables_snapshot _ _ _ _ _) = refl
event_inline (rxkeyed _ _) = refl
event_inline (txkeyed _ _) = refl
event_inline (link_connected _) = refl
event_inline (link_disconnected _) = refl

abbrev waiting : Queue
waiting = record { id = 0; items = make_event origin (rxkeyed (some true) "2000") ∷ [] }

-- Two events reach the queue in the first wait, and the second wait takes the rest.
abbrev turns : List Turn
turns =
    waits (
      make_event origin (link_connected "2001") ∷ make_event origin (link_disconnected "2001") ∷ [])
    ∷ waits []
    ∷ Turn.gone
    ∷ []

generator-reads_example :
    read_events (body (generator dump_event dump_variables (err timeout_error) turns waiting).0)
      ++ map
          (as_read dump_event dump_variables)
          (generator dump_event dump_variables (err timeout_error) turns waiting).1.items
    ≡ greeted dump_event dump_variables (err timeout_error)
      ++ map (as_read dump_event dump_variables) (waiting.items ++ reached turns)
generator-reads_example =
    generator-reads dump_event dump_variables (λ e. event_inline e.detail)
      (λ v. status_inline v.state_status) (err timeout_error) turns waiting (omega arith)
