-- ===== src/Http/Stream.antt =====
-- GET /events of vnext/api.py: the snapshots that a client is sent.
use asl3_api.Prelude.{
  String, Bool, true, not, Option, none, some, List, [], ◌∷◌, map, all_chars, ◌≡◌, refl, ap, ◌∙◌,
  All,
}
use asl3_api.Errors.{Exception, problem, Result, ok, err, raise_if, ◌>>=◌}
use asl3_api.Models.{NodeState}
use asl3_api.Config.{Value, bool}
use asl3_api.Config as Config
use asl3_api.Http.Auth.{observe, authenticate, is_truthy}
use asl3_api.Http.Frames.{Chunk, event, body, read_events}
use asl3_api.Http.Frames.Read.{is_inline, IsInline, told_all, read_events-body}

-- `bool(self.get("events.enabled", True))`
unfoldable pub events_enabled : Value → Bool
events_enabled config = is_truthy (Config.get config "events.enabled" (bool true))

-- `events` up to its response, once the runtime has started.
unfoldable pub events : Value → Option String → Result (Unit {0})
events config key = do
  _ ← authenticate config key observe
  raise_if (not (events_enabled config)) (problem 503 "EVENTS_DISABLED")

-- A round of the loop: the client has gone, or a snapshot is taken.
pub data Round : Type 0 where
  gone : Round
  sample : Result NodeState → Round

-- `dump` is `json.dumps` of a snapshot.
module _ (dump : NodeState → String) where
  -- What `stream` yields in its rounds, and the exception that ends it.
  unfoldable pub stream : List Round → List Chunk × Option Exception
  stream [] = ([], none)
  stream (gone ∷ rounds) = ([], none)
  stream (sample (err e) ∷ rounds) = ([], some e)
  stream (sample (ok s) ∷ rounds) =
      let rest = stream rounds in (event "node.state" (dump s) ∷ rest.0, rest.1)

  -- The snapshots before the client went or a snapshot raised.
  abbrev pub taken : List Round → List NodeState
  taken [] = []
  taken (gone ∷ rounds) = []
  taken (sample (err e) ∷ rounds) = []
  taken (sample (ok s) ∷ rounds) = s ∷ taken rounds

  module _ (one_line : (s : NodeState) → all_chars is_inline (dump s) ≡ true) where
    stream-IsInline : (rounds : List Round) → All IsInline (stream rounds).0
    unfolding stream
    stream-IsInline [] = tt
    stream-IsInline (gone ∷ rounds) = tt
    stream-IsInline (sample (err e) ∷ rounds) = tt
    stream-IsInline (sample (ok s) ∷ rounds) =
        ((unfold all_chars in refl, one_line s), stream-IsInline rounds)

    told_all-stream :
        (rounds : List Round)
        → told_all (stream rounds).0 ≡ map (λ s. ("node.state", dump s)) (taken rounds)
    unfolding stream
    told_all-stream [] = refl
    told_all-stream (gone ∷ rounds) = refl
    told_all-stream (sample (err e) ∷ rounds) = refl
    told_all-stream (sample (ok s) ∷ rounds) =
        ap (λ es. ("node.state", dump s) ∷ es) (told_all-stream rounds)

    -- A client of `GET /v1/events` reads one "node.state" event for each snapshot that was taken
    -- before it went or a snapshot raised, in their order, with the snapshot's JSON text,
    -- which holds no line end.
    pub read_events-stream :
        (rounds : List Round)
        → read_events (body (stream rounds).0) ≡ map (λ s. ("node.state", dump s)) (taken rounds)
    read_events-stream rounds =
        read_events-body (stream rounds).0 (stream-IsInline rounds) ∙ told_all-stream rounds
