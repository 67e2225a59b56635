-- ===== src/Legacy/Rejection.antt =====
-- Which answers `_rejection_reason` takes for a refusal.

use asl3_api.Prelude.{
  String, Bool, true, false, none, some, List, [], ◌∷◌, is_empty, format, cons-append,
  if◌then◌else◌, ◌≡◌, ◌↔◌, refl, arith, inl, inr, Bool-cases,
}
use asl3_api.Legacy.Output.{
  Response, filled, failure_prefix, with_detail, detail_text, is_failure, ami_failure_detail,
  normalize_ami_output, joined_output, mentions_marker, or_refusal, rejection_reason,
}

prefix_filled : (code : List String) → is_empty (failure_prefix code) ≡ false
unfolding format
prefix_filled [] = refl
prefix_filled (c ∷ cs) = rw cons-append refl

format_filled :
    (s : String) (rest : List String) → is_empty s ≡ false → is_empty (format (s ∷ rest)) ≡ false
unfolding format
format_filled String.[] rest h = absurd (ground arith)
format_filled (String.◌∷◌ c s) rest h = rw cons-append refl

failure_filled :
    (code : List String) (detail : String)
    → is_empty (with_detail (failure_prefix code) detail) ≡ false
failure_filled code detail = elim (Bool-cases (is_empty detail)) [
  | inl empty ↦ rw empty (prefix_filled code)
  | inr some_detail ↦ rw some_detail (format_filled (failure_prefix code) _ (prefix_filled code))
]

unmarked : (joined : String) → mentions_marker joined ≡ false → or_refusal [] joined ≡ none
unmarked joined h = rw h refl

unmarked_back : (joined : String) → or_refusal [] joined ≡ none → mentions_marker joined ≡ false
unmarked_back joined e = elim (Bool-cases (mentions_marker joined)) [
  | inl marked ↦ absurd (marked_some marked)
  | inr clean ↦ clean
]
  where
    marked_some : mentions_marker joined ≡ true → ⊥
    marked_some m = ground (arith, m, e)

by_failure :
    (failed : Bool) (text joined : String)
    → is_empty text ≡ false
    → (or_refusal (filled (if failed then some text else none)) joined ≡ none)
      ↔ ((failed ≡ false) × (mentions_marker joined ≡ false))
by_failure true text joined h =
    (λ e. absurd (ground (arith, h, e)), λ both. absurd (ground (arith, both.0)))
by_failure false text joined h =
    (λ e. (refl, unmarked_back joined e), λ both. unmarked joined both.1)

-- An answer is taken for accepted exactly when it is no explicit failure and its output has none of
-- the diagnostics: an explicit failure always has a reason.
pub rejection_reason_iff :
    (r : Response)
    → (rejection_reason r ≡ none)
      ↔ ((is_failure r.success ≡ false) × (mentions_marker (joined_output r) ≡ false))
unfolding rejection_reason ami_failure_detail
rejection_reason_iff r = by_failure (is_failure r.success) _ (joined_output r) (
    failure_filled (filled r.response_code)
      (detail_text (filled r.message) (normalize_ami_output r)))
