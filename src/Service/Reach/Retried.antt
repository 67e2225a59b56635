-- ===== src/Service/Reach/Retried.antt =====
-- What an idempotency key stands for over a run.
pub mod Answers
use asl3_api.Prelude.{
  String, Bool, true, false, not, Option, none, some, List, [], ◌∷◌, is_some, eq_iff, eq_refl,
  if◌then◌else◌, all, ◌≡◌, refl, sym, ap, subst, ◌∙◌, Bool-cases, inl, inr, arith,
}
use asl3_api.Errors.{problem, Result, ok, err}
use asl3_api.Effects.{Effect, lift, require, bind_returned}
use asl3_api.Models.{Operation, Kind, Request}
use asl3_api.Models.Command.{command_for}
use asl3_api.Ledger.{Db, Row, select, find_key, match_request, at_key}
use asl3_api.Ledger.Canonical.{canonical}
use asl3_api.Ledger.Methods as Methods
use asl3_api.Ledger.History.{Writes, row_ok, row_ok_parts}
use asl3_api.Ledger.Safety.{select_value, select_rows}
use asl3_api.Ledger.Idempotency.{existing_after, match_request-found}
use asl3_api.Ledger.Admission.{admit_cases}
use asl3_api.Service.{Platform, Settings, on_ledger, require_ledger}
use asl3_api.Service.Admission.{reserved, reserve, admit_fresh, admit, set_busy}
use asl3_api.Service.Reach.{Reach, next, admits, append-Reach, init}
use asl3_api.Service.Reach.Dispatch.{Reach-Inv}
use asl3_api.Service.Safety.Tasks.{require_ledger_same, on_ledger_ok, Called}
use asl3_api.Service.Record.Steps.{onward, from_init}
use asl3_api.Service.Reach.Retried.Answers.{find_key-row_ok, admit-Answers, admit_matched}

module _ (c : Settings) (credential key : String) where
  -- In every run, once an admission under an idempotency key has returned an operation, each later
  -- admission under that key that returns, whatever steps, crashes and restarts lie between, returns
  -- the operation of the same id, was asked for the same canonical request, and changes no row,
  -- starts no task and writes nothing.
  pub retried_once :
      (kind kind' : Kind) (request request' : Request) {s t p q : Platform} {o o' : Operation}
      → Reach c init s
      → admit c kind request credential (some key) s ≡ (ok o, t)
      → Reach c t p
      → admit c kind' request' credential (some key) p ≡ (ok o', q)
      → (o'.id ≡ o.id)
        × (canonical kind' request' ≡ canonical kind request)
        × (q.db.rows ≡ p.db.rows)
        × (q.tasks ≡ p.tasks)
        × (q.writes ≡ p.writes)
  retried_once kind kind' request request' {s} {t} {p} {q} {o} {o'} before first between again =
      let r : Reach c init t =
        next before (admits kind request credential (some key) (sym (ap (λ x. x.1) first))) in
      let (row, hit, document, asked) =
        match_request-found kind request _
          (admit-Answers c kind request credential key s t first) in
      let (row', hit', same_id, same_canonical) =
        (onward c between (from_init c r)).extends.key_kept credential key row hit in
      let (document', asked', left) =
        admit_matched c kind' request' credential key p q row' hit' again in
      let names : row.document.id ≡ row.id = named t r row hit in
      let names' : row'.document.id ≡ row'.id = named p (append-Reach c between r) row' hit' in
      (
        ap (λ x. x.id) (sym document') ∙ names' ∙ same_id ∙ sym names ∙ ap (λ x. x.id) document,
        sym asked' ∙ same_canonical ∙ asked,
        left.rows,
        left.tasks,
        left.writes,
      )
    where
      named :
          (u : Platform)
          → Reach c init u
          → (x : Row) → find_key c.node credential (some key) u.db.rows ≡ some x
          → x.document.id ≡ x.id
      named u reached x e =
          find_key-row_ok c.node credential key u.writes u.db.rows x
            (Reach-Inv c reached).agrees.rows_ok e
