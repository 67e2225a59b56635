-- ===== src/Observation/Observer.antt =====
-- `Observer` of vnext/observation.py: calls of `snapshot` that wait for its lock, and `invalidate`.
-- asyncio gives a lock that is free to the call that has waited longest.
use asl3_api.Prelude.{ℕ, String, Bool, true, false, Option, none, some, List, [], ◌∷◌, ◌++◌}
use asl3_api.Errors.{Result}
use asl3_api.Models.{NodeState}
use asl3_api.Observation.Snapshot.{Observed, snapshot, invalidate}

-- `holder` is the call that has the lock, with the generation that it read.
pub record Observer : Type 0 where
  pub generation : ℕ
  pub holder : Option (ℕ × ℕ)
  pub waiting : List ℕ
  pub answers : List (ℕ × Result NodeState)

-- What happens at one moment: a call begins and waits, the first that waits takes the lock, a sample
-- is invalidated, and `transport.observe` gives or raises something, at the time `at`.
pub data Action : Type 0 where
  calls : ℕ → Action
  acquires : Action
  invalidates : Action
  answers : (at uuid : String) → Observed → Action

abbrev pub acquired : Observer → Option (ℕ × ℕ) → List ℕ → Observer
acquired o none (x ∷ xs) = record o { holder = some (x, o.generation); waiting = xs }
acquired o _ _ = o

abbrev pub answered : (node at uuid : String) → Observed → Observer → Option (ℕ × ℕ) → Observer
answered node at uuid outcome o none = o
answered node at uuid outcome o (some (x, before)) = record o {
  holder = none;
  answers = o.answers ++ (x, snapshot at uuid node before o.generation outcome) ∷ [];
}

unfoldable pub act : (node : String) → Action → Observer → Observer
act node (calls x) o = record o { waiting = o.waiting ++ x ∷ [] }
act node acquires o = acquired o o.holder o.waiting
act node invalidates o = record o { generation = invalidate o.generation }
act node (answers at uuid outcome) o = answered node at uuid outcome o o.holder

unfoldable pub run : (node : String) → List Action → Observer → Observer
unfolding act
run node [] o = o
run node (a ∷ rest) o = run node rest (act node a o)

abbrev pub is_answer : Action → Bool
is_answer (answers at uuid outcome) = true
is_answer _ = false

abbrev pub is_invalidation : Action → Bool
is_invalidation invalidates = true
is_invalidation _ = false

abbrev pub fresh : Observer
fresh = record { generation = 0; holder = none; waiting = []; answers = [] }
