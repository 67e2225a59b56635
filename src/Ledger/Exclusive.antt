-- ===== src/Ledger/Exclusive.antt =====
-- One owner at a time.
use asl3_api.Prelude.{
  ℕ, suc, ◌≤◌, ◌<◌, true, false, none, some, List, [], ◌∷◌, length, ◌==◌, ◌≡◌, refl, arith,
  Bool-cases, inl, inr,
}
use asl3_api.Ledger.Owner.{no_locks, acquire, World, Action, starts, ends, act, run}

abbrev idle : ℕ → World
idle n = record { file = record { open_fds = []; holder = none; next_fd = n }; owners = [] }

abbrev owned : (fd n : ℕ) → World
owned fd n = record {
  file = record { open_fds = fd ∷ []; holder = some fd; next_fd = n };
  owners = fd ∷ [];
}

-- Nothing is open, or the one owner's descriptor is, and holds the lock.
data Sound (w : World) : Type 0 where
  free : (n : ℕ) → w ≡ idle n → Sound w
  taken : (fd n : ℕ) → fd < n → w ≡ owned fd n → Sound w

starts-owned : (fd n : ℕ) → fd < n → act starts (owned fd n) ≡ owned fd (suc n)
unfolding act acquire
starts-owned fd n h =
    let other : (fd == n) ≡ false = ground (arith, h) in
    let self : (n == n) ≡ true = ground arith in rw (other, self, other) refl

ends-owned : (fd n g : ℕ) → fd < n → Sound (act (ends g) (owned fd n))
unfolding act
ends-owned fd n g h = elim (Bool-cases (fd == g)) [
  | inl same ↦ rw same (free n refl)
  | inr other ↦ rw other (taken fd n h refl)
]

act-Sound : (a : Action) (w : World) → Sound w → Sound (act a w)
act-Sound starts w (free n e) = rw e (taken n (suc n) (omega arith) (unfold act acquire in refl))
act-Sound starts w (taken fd n h e) =
    rw (e, starts-owned fd n h) (taken fd (suc n) (omega (arith, h)) refl)
act-Sound (ends g) w (free n e) = rw e (free n (unfold act in refl))
act-Sound (ends g) w (taken fd n h e) = rw e (ends-owned fd n g h)

run-Sound : (actions : List Action) (w : World) → Sound w → Sound (run actions w)
unfolding run
run-Sound [] w s = s
run-Sound (a ∷ actions) w s = run-Sound actions (act a w) (act-Sound a w s)

sound_length : (w : World) → Sound w → (length w.owners ≤ 1) × (w.file.open_fds ≡ w.owners)
sound_length w (free n e) = rw e (omega arith, refl)
sound_length w (taken fd n h e) = rw e (omega arith, refl)

-- Whatever processes start, close and die, in any order, at most one of them owns the node, and no
-- descriptor of the lock file stays open but the owner's.
pub run-length :
    (actions : List Action)
    → (length (run actions (record { file = no_locks; owners = [] })).owners ≤ 1)
      × ((run actions (record { file = no_locks; owners = [] })).file.open_fds
          ≡ (run actions (record { file = no_locks; owners = [] })).owners)
run-length actions = sound_length _ (run-Sound actions (idle 0) (free 0 refl))
