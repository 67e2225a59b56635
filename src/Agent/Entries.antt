-- ===== src/Agent/Entries.antt =====
-- What is read back of the audit log.

use asl3_api.Prelude.{
  ℕ, zero, suc, ◌-◌, ◌≤◌, String, Option, none, some, List, [], ◌∷◌, length, drop, ◌≡◌, arith,
}
use asl3_api.Config.{pos}
use asl3_api.Agent.Audit.{universal, readlines, recent, read_entries, get_audit_log}

read_entries-length : (lines : List String) → length (read_entries lines) ≤ length lines
unfolding read_entries
read_entries-length [] = omega arith
read_entries-length (line ∷ lines) = ground (arith, read_entries-length lines)

length-drop : (n : ℕ) (xs : List String) → length (drop n xs) ≡ length xs - n
length-drop zero xs = omega arith
length-drop (suc n) [] = omega arith
length-drop (suc n) (x ∷ xs) = omega (arith, length-drop n xs)

recent-length : (n : ℕ) (lines : List String) → length (recent (pos (suc n)) lines) ≤ suc n
unfolding recent
recent-length n lines = ground (arith, length-drop (length lines - suc n) lines)

-- The audit log is read in at most as many entries as were asked for, when that is a positive number.
pub get_audit_log-length :
    (n : ℕ) (log : Option String) → length (get_audit_log (pos (suc n)) log) ≤ suc n
unfolding get_audit_log
get_audit_log-length n none = omega arith
get_audit_log-length n (some log) = omega (
  arith,
  read_entries-length (recent (pos (suc n)) (readlines (universal log))),
  recent-length n (readlines (universal log)),
)
