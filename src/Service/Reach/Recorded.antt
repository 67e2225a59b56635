-- ===== src/Service/Reach/Recorded.antt =====
-- The control writes of every run against the operations of the ledger.
use asl3_api.Prelude.{String, true, some, [], ◌∷◌, All, All-map, format, ◌≡◌}
use asl3_api.Errors.{ok}
use asl3_api.Models.{Operation, NodeState, is_node}
use asl3_api.Models.Command.{command_for}
use asl3_api.Models.Surface.{Surface, body_of, HasValidTarget, command_for-Surface}
use asl3_api.Policy.{enforce}
use asl3_api.Ledger.{find}
use asl3_api.Service.{Platform, Settings}
use asl3_api.Service.Reach.{Observes, Reach, init}
use asl3_api.Service.Record.Steps.{from_run, onward, from_init}

module _ (c : Settings) where
  -- In every run, each control message that was written is on record: the ledger has its operation,
  -- the message is the command that `command_for` builds for the operation's kind and request, and
  -- the traffic policy allowed that kind on an observation that the operation's task was given in
  -- the run.
  pub writes_recorded :
      {p : Platform} (r : Reach c init p)
      → All
          (λ w.
            (o : Operation) × (find c.node w.0 p.db.rows ≡ some o)
            × (command_for c.node o.kind o.request ≡ ok w.1)
            × ((before : NodeState) × Observes c w.0 before r
                × (enforce c.config o.kind before ≡ ok tt)))
          p.writes
  writes_recorded {p} r =
      All-map
        (λ w h. (
          h.operation,
          h.found,
          h.permitted.built,
          (h.permitted.before, h.permitted.seen, h.permitted.allowed),
        ))
        p.writes (from_run c (λ id before. Observes c id before r) r (λ _ _ o. o)).writes

  -- In every run, each control message that was written is a command of the v1 control surface with a
  -- valid target, for the configured node, whose number is valid.
  pub writes_on_surface :
      {p : Platform}
      → Reach c init p
      → All
          (λ w.
            (a : Surface) × (is_node c.node ≡ true)
            × HasValidTarget a
            × (w.1 ≡ format ("rpt cmd " ∷ c.node ∷ " " ∷ body_of a ∷ [])))
          p.writes
  writes_on_surface {p} r =
      All-map
        (λ w h. command_for-Surface c.node h.operation.kind h.operation.request h.permitted.built)
        p.writes (from_init c r).writes

  -- In every run, an operation that the ledger has stays in it, with its kind and its request,
  -- through all later steps, crashes and restarts among them.
  pub operations_kept :
      (id : String) {p q : Platform} {o : Operation}
      → Reach c init p
      → Reach c p q
      → find c.node id p.db.rows ≡ some o
      → (o' : Operation) × (find c.node id q.db.rows ≡ some o')
        × (o'.id ≡ o.id)
        × (o'.kind ≡ o.kind)
        × (o'.request ≡ o.request)
  operations_kept id {p} {q} {o} r s e =
      let (o', found, same) = (onward c s (from_init c r)).extends.kept id o e in
      (o', found, same.id, same.kind, same.request)
