-- ===== src/Ledger/Owner.antt =====
-- `ControlOwner` of vnext/ledger.py: the lock of a node's lock file, over the descriptors that the
-- processes have open on it. The file is never unlinked, so all of them lock one inode.
use asl3_api.Prelude.{ℕ, suc, Option, none, some, List, [], ◌∷◌, ◌==◌, if◌then◌else◌}
use asl3_api.Errors.{os_error, Result, ok, err}

-- The open descriptors and the one that holds the lock.
pub record LockFile : Type 0 where
  pub open_fds : List ℕ
  pub holder : Option ℕ
  pub next_fd : ℕ

abbrev pub no_locks : LockFile
no_locks = record { open_fds = []; holder = none; next_fd = 0 }

-- `os.open` gives a descriptor of its own.
abbrev pub os_open : LockFile → LockFile
os_open f = record f { open_fds = f.next_fd ∷ f.open_fds; next_fd = suc f.next_fd }

abbrev pub without : ℕ → List ℕ → List ℕ
without fd [] = []
without fd (g ∷ gs) = let rest = without fd gs in if g == fd then rest else g ∷ rest

abbrev pub unless_held : ℕ → Option ℕ → Option ℕ
unless_held fd none = none
unless_held fd (some g) = if g == fd then none else some g

-- `os.close` frees the lock that the descriptor holds.
abbrev pub os_close : ℕ → LockFile → LockFile
os_close fd f = record f { open_fds = without fd f.open_fds; holder = unless_held fd f.holder }

-- `flock(fd, LOCK_EX | LOCK_NB)`
abbrev pub flock : ℕ → LockFile → Option LockFile
flock fd f = lock f.holder
  where
    lock : Option ℕ → Option LockFile
    lock none = some (record f { holder = some fd })
    lock (some other) = if other == fd then some f else none

-- `__init__`: the descriptor of the owner, or the error of a lock that another one holds.
unfoldable pub acquire : LockFile → Result ℕ × LockFile
acquire f = locked (flock f.next_fd (os_open f))
  where
    locked : Option LockFile → Result ℕ × LockFile
    locked (some g) = (ok f.next_fd, g)
    locked none = (err os_error, os_close f.next_fd (os_open f))

-- `close`, of an owner with this descriptor.
abbrev pub release : Option ℕ → LockFile → LockFile
release none f = f
release (some fd) f = os_close fd f

-- The lock file and the descriptors of the owners, of all processes.
pub record World : Type 0 where
  pub file : LockFile
  pub owners : List ℕ

-- A process starts, or one that owns the node closes or dies, when the system closes its descriptor.
pub data Action : Type 0 where
  starts : Action
  ends : (fd : ℕ) → Action

abbrev joined : World → Result ℕ × LockFile → World
joined w (ok fd, f) = record { file = f; owners = fd ∷ w.owners }
joined w (err e, f) = record { file = f; owners = w.owners }

unfoldable pub act : Action → World → World
unfolding acquire
act starts w = joined w (acquire w.file)
act (ends fd) w = record { file = release (some fd) w.file; owners = without fd w.owners }

unfoldable pub run : List Action → World → World
unfolding act
run [] w = w
run (a ∷ rest) w = run rest (act a w)
