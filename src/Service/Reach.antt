-- ===== src/Service/Reach.antt =====
-- Every run of the service over one database: requests, resumed tasks, shutdowns, crashes and
-- restarts, in any order.
pub mod Dispatch
pub mod Recorded
pub mod Retried
pub mod Verified
pub mod Closed
pub mod Opened
pub mod Restarted
use asl3_api.Prelude.{ℕ, ◌⊎◌, String, Bool, Option, List, [], ◌≡◌}
use asl3_api.Models.{NodeState, Kind, Request}
use asl3_api.Ledger.{Db}
use asl3_api.Ledger.Methods as Methods
use asl3_api.Service.{Platform, Settings}
use asl3_api.Service.Admission.{admit}
use asl3_api.Service.Execution.{Event, snapshot, advance}
use asl3_api.Service.Runtime.{boot, start, close_begin, close_end}

-- One atomic step from `t` to `u`. A crash between two steps loses all but the database; a crash
-- at the barrier comes after the commit of `start_dispatch` and before the write.
pub data Step (c : Settings) (t u : Platform) : Type 0 where
  admits :
      (kind : Kind) (request : Request) (credential : String) (key : Option String)
      → u ≡ (admit c kind request credential key t).1
      → Step c t u
  resumes : (id : String) (event : Event) → u ≡ advance c id event t → Step c t u
  closing : u ≡ close_begin t → Step c t u
  closed : t.tasks ≡ [] → u ≡ close_end t → Step c t u
  crashes : u ≡ boot t.db t.writes → Step c t u
  crashes_at_barrier :
      (id : String) → u ≡ boot (Methods.start_dispatch c.env c.node id t.db).1 t.writes → Step c t u
  starts : (lock_free : Bool) → u ≡ (start c lock_free t).1 → Step c t u

pub data Reach (c : Settings) (s : Platform) : Platform → Type 0 where
  here : Reach c s s
  next : {t u : Platform} → Reach c s t → Step c t u → Reach c s u

-- The step gives the observation to the task of `id`.
abbrev pub Delivers :
    (c : Settings) (id : String) (before : NodeState) {t u : Platform} → Step c t u → Type 0
Delivers c id before (resumes j event e) = (j ≡ id) × ((time : ℕ) × (event ≡ snapshot before time))
Delivers c id before _ = ⊥

-- A step of the run gives the observation to the task of `id`.
abbrev pub Observes :
    (c : Settings) (id : String) (before : NodeState) {s t : Platform} → Reach c s t → Type 0
Observes c id before here = ⊥
Observes c id before (next r s) = Observes c id before r ⊎ Delivers c id before s

-- A run and its continuation.
pub append-Reach : (c : Settings) {s t u : Platform} → Reach c t u → Reach c s t → Reach c s u
append-Reach c here r = r
append-Reach c (next between step) r = next (append-Reach c between r) step

-- A first process over an empty table.
abbrev pub init : Platform
init = boot (record { rows = []; transactions = 0 }) []
