-- ===== src/Agent/Stream.antt =====
-- The event stream of asl_agent.py: what `generator` yields to one client, from its queue.
use asl3_api.Prelude.{ℕ, String, Bool, true, false, Option, List, [], ◌∷◌, ◌++◌, drop, show, format}
use asl3_api.Errors.{Result, ok, err}
use asl3_api.Legacy.Client.{Variables}
use asl3_api.Events.Listener.{
  Detail, variables_snapshot, rxkeyed, txkeyed, link_connected, link_disconnected, Event, Queue,
  deliver, Listener, unsubscribe, subscriber_count,
}
use asl3_api.Http.Frames.{Chunk, event, comment}
use asl3_api.Agent.Audit.{audit_log}

-- `event["type"]`
abbrev pub type_text : Detail → String
type_text (variables_snapshot _ _ _ _ _) = "node.variables.snapshot"
type_text (rxkeyed _ _) = "node.rxkeyed"
type_text (txkeyed _ _) = "node.txkeyed"
type_text (link_connected _) = "link.connected"
type_text (link_disconnected _) = "link.disconnected"

-- A round of the loop: the client has gone, or these events reach the queue until `get` returns or
-- its timeout is over.
pub data Turn : Type 0 where
  gone : Turn
  waits : List Event → Turn

abbrev pub deliver_all : List Event → Queue → Queue
deliver_all [] q = q
deliver_all (e ∷ es) q = deliver_all es (deliver e q)

-- `json.dumps` of an event, and of the first snapshot.
module _ (dump : Event → String) (dump_variables : Variables → String) where
  -- The oldest event of the queue, or the comment of a timeout.
  abbrev pub next_chunk : List Event → Chunk
  next_chunk [] = comment
  next_chunk (e ∷ es) = event (type_text e.detail) (dump e)

  -- The loop of `generator`: what it yields, and the queue that it leaves.
  unfoldable pub serve : List Turn → Queue → List Chunk × Queue
  serve [] q = ([], q)
  serve (gone ∷ turns) q = ([], q)
  serve (waits es ∷ turns) q =
      let full = deliver_all es q in
      let rest = serve turns (record full { items = drop 1 full.items }) in
      (next_chunk full.items ∷ rest.0, rest.1)

  -- The first snapshot; a failure is only logged.
  abbrev pub greeting : Result Variables → List Chunk
  greeting (ok variables) = event "node.variables.snapshot" (dump_variables variables) ∷ []
  greeting (err e) = []

  unfoldable pub generator : Result Variables → List Turn → Queue → List Chunk × Queue
  unfolding serve
  generator variables turns q = let rest = serve turns q in (greeting variables ++ rest.0, rest.1)

-- The `finally` of `generator`, and the entry that it logs.
unfoldable pub finish :
    (id : ℕ) (writes : Bool) (timestamp : String)
    → Listener × Option String
    → Listener × Option String
unfolding audit_log
finish id writes timestamp (l, log) =
    let left = unsubscribe id l in
    (
      left,
      audit_log writes timestamp "events/disconnect"
          (format ("clients=" ∷ show (subscriber_count left) ∷ [])) log,
    )

-- Where the stream is closed: at the first snapshot, which stands before the `try`, or in the loop.
unfoldable pub closed_at :
    (in_greeting : Bool) (id : ℕ) (writes : Bool) (timestamp : String)
    → Listener × Option String
    → Listener × Option String
closed_at true id writes timestamp x = x
closed_at false id writes timestamp x = finish id writes timestamp x
