-- ===== src/Tests/Ledger.antt =====
-- The ledger on the operation of a run: a second admission, and recovery after the write.
use asl3_api.Ledger.Owner.{Action, starts, ends, run, act, acquire, no_locks}
use asl3_api.Ledger.Exclusive.{run-length}
use asl3_api.Prelude.{◌⊎◌, false, List, ◌∷◌, length, ◌≤◌, true, false, some, [], str_eq, ◌≡◌, refl}
use asl3_api.Errors.{ok, err, problem}
use asl3_api.Models.{link_node, unlink_all, Operation}
use asl3_api.Ledger.{Db}
use asl3_api.Ledger.Methods as Methods
use asl3_api.Ledger.Methods.{is_queued, admit, start_dispatch, recover}
use asl3_api.Ledger.Canonical.{canonical}
use asl3_api.Ledger.Calls as Calls
use asl3_api.Ledger.Calls.{Call, recovers, performs}
use asl3_api.Ledger.Retries.{empty, admit_again}
use asl3_api.Tests.Service.{machine, settings, link_request_2001}

abbrev first : Db
first = (admit settings.env "2000" link_node link_request_2001 "remote" (some "k1") empty).1

abbrev first_operation : Operation
first_operation =
    Methods.new_operation "2000" link_node link_request_2001 "remote" "a1"
      "2026-01-01T00:00:00+00:00"

first_admitted :
    admit settings.env "2000" link_node link_request_2001 "remote"
      (some "k1")
      (performs settings.env "2000" [] empty)
    ≡ (ok (first_operation, true), first)
unfolding machine performs
first_admitted = refl

-- The operation was dispatched, and the process restarted.
abbrev between : List Call
between = Calls.starts "a1" ∷ recovers ∷ []

-- The key is used again for another request.
admit_again_example :
    (((canonical link_node link_request_2001 ≡ canonical unlink_all [])
        × ((o' : Operation) × ((admit settings.env "2000" unlink_all [] "remote"
                (some "k1")
                (performs settings.env "2000" between first)).0
              ≡ ok (o', false))
            × (o'.id ≡ first_operation.id)))
      ⊎ ((str_eq (canonical link_node link_request_2001) (canonical unlink_all []) ≡ false)
          × ((admit settings.env "2000" unlink_all [] "remote"
                (some "k1")
                (performs settings.env "2000" between first)).0
              ≡ err (problem 409 "IDEMPOTENCY_CONFLICT"))))
    × ((admit settings.env "2000" unlink_all [] "remote"
          (some "k1")
          (performs settings.env "2000" between first)).1.rows
        ≡ (performs settings.env "2000" between first).rows)
admit_again_example =
    admit_again settings.env "2000" "remote" "k1" [] between link_node unlink_all link_request_2001
      [] first_admitted refl

-- A second process finds the lock held; a third one starts once the owner has died.
abbrev processes : List Action
processes = starts ∷ starts ∷ ends 0 ∷ starts ∷ []

owners_test : (run processes (record { file = no_locks; owners = [] })).owners ≡ 2 ∷ []
unfolding run act acquire
owners_test = refl

run-length_example :
    (length (run processes (record { file = no_locks; owners = [] })).owners ≤ 1)
    × ((run processes (record { file = no_locks; owners = [] })).file.open_fds
        ≡ (run processes (record { file = no_locks; owners = [] })).owners)
run-length_example = run-length processes
