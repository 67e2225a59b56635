-- ===== src/Observation/Invalidated.antt =====
-- A sample of `Observer` against the invalidations while its call has the lock.
use asl3_api.Prelude.{
  ℕ, suc, ◌≤◌, String, Bool, true, false, none, some, List, [], ◌∷◌, ◌++◌, any, All, ◌==◌, ◌≡◌,
  refl, subst, ap, sym, ◌∙◌, arith,
}
use asl3_api.Errors.{Result, ok}
use asl3_api.Models.{NodeState, is_node}
use asl3_api.Transport.{Message}
use asl3_api.Observation.Snapshot.{parse_snapshot, Observed, snapshot, invalidate}
use asl3_api.Observation.Laws.{IsUnknown, Observes, parse_snapshot-Observes}
use asl3_api.Observation.Evidence.{is_ok, is_handled, snapshot-Observes}
use asl3_api.Observation.Observer.{
  Observer, Action, calls, acquires, invalidates, answers, acquired, answered, act, run, is_answer,
  is_invalidation,
}

-- The call `x` has had the lock since the generation `before`, and other calls have waited.
pub record IsHeld (x before : ℕ) (changed : Bool) (o o' : Observer) : Type 0 where
  pub holder : o'.holder ≡ some (x, before)
  pub same_answers : o'.answers ≡ o.answers
  pub later : o.generation ≤ o'.generation
  pub unchanged : changed ≡ false → o'.generation ≡ o.generation
  pub moved : changed ≡ true → suc o.generation ≤ o'.generation

module _ (node : String) where
  run-IsHeld :
      (x before : ℕ) (between : List Action) (o : Observer)
      → o.holder ≡ some (x, before)
      → All (λ a. is_answer a ≡ false) between
      → IsHeld x before (any is_invalidation between) o (run node between o)
  unfolding run act
  run-IsHeld x before [] o h n = record {
    holder = h;
    same_answers = refl;
    later = omega arith;
    unchanged = λ _. refl;
    moved = λ e. absurd (ground arith);
  }
  run-IsHeld x before (calls y ∷ rest) o h n =
      let k = run-IsHeld x before rest (record o { waiting = o.waiting ++ y ∷ [] }) h n.1 in
      record {
        holder = k.holder;
        same_answers = k.same_answers;
        later = k.later;
        unchanged = k.unchanged;
        moved = k.moved;
      }
  run-IsHeld x before (acquires ∷ rest) o h n =
      subst (λ s. IsHeld x before (any is_invalidation rest) o (run node rest s))
        (sym (ap (λ holder. acquired o holder o.waiting) h)) (run-IsHeld x before rest o h n.1)
  run-IsHeld x before (invalidates ∷ rest) o h n =
      let k = run-IsHeld x before rest (record o { generation = invalidate o.generation }) h n.1 in
      let later : suc o.generation ≤ (run node rest _).generation = omega (arith, k.later) in
      record {
        holder = k.holder;
        same_answers = k.same_answers;
        later = omega (arith, later);
        unchanged = λ e. absurd (ground arith);
        moved = λ _. later;
      }
  run-IsHeld x before (answers at uuid outcome ∷ rest) o h n = absurd (ground (arith, n.0))

  acquire_first :
      (o : Observer) (x : ℕ) (xs : List ℕ)
      → o.holder ≡ none
      → o.waiting ≡ x ∷ xs
      → act node acquires o ≡ record o { holder = some (x, o.generation); waiting = xs }
  unfolding act
  acquire_first o x xs free first =
      ap (λ holder. acquired o holder o.waiting) free ∙ ap (acquired o none) first

  answer_held :
      (o : Observer) (x before : ℕ) (at uuid : String) (outcome : Observed)
      → o.holder ≡ some (x, before)
      → (act node (answers at uuid outcome) o).answers
        ≡ o.answers ++ (x, snapshot at uuid node before o.generation outcome) ∷ []
  unfolding act
  answer_held o x before at uuid outcome h =
      ap (λ holder. (answered node at uuid outcome o holder).answers) h

  -- The result of a call that had the lock, by what it saw and whether a sample was invalidated.
  abbrev pub IsSound : (at : String) → Observed → (invalidated : Bool) → Result NodeState → Type 0
  IsSound at outcome invalidated r =
      (o : Observes node r) × (is_ok outcome ≡ false → IsUnknown o.state)
      × (invalidated ≡ true → IsUnknown o.state)
      × (invalidated ≡ false
          → (xstat sawstat : Message) (epoch : String) → outcome ≡ ok (xstat, sawstat, epoch)
          → r ≡ parse_snapshot at node epoch xstat sawstat)

  module _ (valid : is_node node ≡ true) where
    snapshot-same :
        (at uuid epoch : String) (generation : ℕ) (xstat sawstat : Message)
        → snapshot at uuid node generation generation (ok (xstat, sawstat, epoch))
          ≡ parse_snapshot at node epoch xstat sawstat
    unfolding snapshot
    snapshot-same at uuid epoch generation xstat sawstat =
        let o = parse_snapshot-Observes at node valid epoch xstat sawstat in
        let same : (generation == generation) ≡ true = ground arith in rw (same, o.returned) refl

    snapshot-IsSound :
        (at uuid : String) (outcome : Observed) (before after : ℕ) (invalidated : Bool)
        → is_handled at node valid outcome ≡ true
        → (invalidated ≡ true → (before == after) ≡ false)
        → (invalidated ≡ false → after ≡ before)
        → IsSound at outcome invalidated (snapshot at uuid node before after outcome)
    snapshot-IsSound at uuid outcome before after invalidated h moved kept =
        let (o, failed, stale) = snapshot-Observes at node valid uuid before after outcome h in
        (
          o,
          failed,
          (λ i. stale (moved i)),
          (λ i xstat sawstat epoch e.
              rw (kept i, e) (snapshot-same at uuid epoch before xstat sawstat)),
        )

    -- For a valid node, once the lock is free, the call that has waited longest gets it, and the next
    -- answer is the answer to that call, whatever other calls begin meanwhile. Unless the transport
    -- raises what `Observer.snapshot` does not catch, it is a state of the node: unknown if the
    -- transport raised or a sample was invalidated since the call got the lock, however long it had
    -- waited, and otherwise what `parse_snapshot` makes of the two responses.
    pub run-IsSound :
        (o : Observer) (x : ℕ) (xs : List ℕ) (between : List Action) (at uuid : String)
        (outcome : Observed)
        → o.holder ≡ none
        → o.waiting ≡ x ∷ xs
        → All (λ a. is_answer a ≡ false) between
        → is_handled at node valid outcome ≡ true
        → (r : Result NodeState) × ((act node
              (answers at uuid outcome)
              (run node between (act node acquires o))).answers
            ≡ o.answers ++ (x, r) ∷ [])
          × IsSound at outcome (any is_invalidation between) r
    run-IsSound o x xs between at uuid outcome free first n h =
        let held : Observer = record o { holder = some (x, o.generation); waiting = xs } in
        let k = run-IsHeld x o.generation between held refl n in
        let o' = run node between held in
        (
          snapshot at uuid node o.generation o'.generation outcome,
          ap (λ s. (act node (answers at uuid outcome) s).answers)
                (ap (run node between) (acquire_first o x xs free first))
              ∙ answer_held o' x o.generation at uuid outcome k.holder
              ∙ ap (λ l. l ++ (x, snapshot at uuid node o.generation o'.generation outcome) ∷ [])
                  k.same_answers,
          snapshot-IsSound at uuid outcome o.generation o'.generation (any is_invalidation between)
              h (λ i. let more = k.moved i in ground (arith, more)) k.unchanged,
        )
