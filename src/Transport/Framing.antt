-- ===== src/Transport/Framing.antt =====
-- What an action writes, and what it takes for its response.
use Prim.Native.String
use asl3_api.Prelude.{
  ℕ, zero, suc, ◌<◌, String, Char, code, Bool, true, false, not, ◌&&◌, Option, none, some, List, [],
  ◌∷◌, ◌++◌, map, any, All, Dict, get, put, has, join, format, all_chars, all_chars-format,
  cons_head, length, nil-append, cons-append, append_assoc, ◌==◌, ◌≡◌, ◌⊎◌, refl, ap, ◌∙◌, arith,
  Bool-cases, inl, inr,
}
use asl3_api.Errors.{Exception, value_error, runtime_error, Result, ok, err}
use asl3_api.Transport.{Message, field_is}
use asl3_api.Transport.Frame.{split_lines, begins_lf, drop_first}
use asl3_api.Transport.Session.{Session, is_unbroken, header, payload, cross, send, await_response}

cons_head_cases :
    (c : Char) (r : List String) → (h : String) × (t : List String) × (cons_head c r ≡ h ∷ t)
cons_head_cases c [] = (_, _, refl)
cons_head_cases c (s ∷ r) = (_, _, refl)

split_lines_cases : (s : String) → (h : String) × (r : List String) × (split_lines s ≡ h ∷ r)
unfolding split_lines
split_lines_cases String.[] = ("", [], refl)
split_lines_cases (String.◌∷◌ c s) = elim (Bool-cases (code c == 13 && begins_lf s)) [
  | inl ended ↦ ("", drop_first (split_lines s), rw ended refl)
  | inr on ↦ let (h, t, e) = cons_head_cases c (split_lines s) in (h, t, rw on e)
]

split_lines-break : (t : String) → split_lines (String.◌++◌ "\r\n" t) ≡ "" ∷ split_lines t
unfolding split_lines
split_lines-break t =
    let (h, r, e) = split_lines_cases t in
    let shape : String.◌++◌ "\r\n" t ≡ String.◌∷◌ "\r" (String.◌∷◌ "\n" t) =
      rw (cons-append, cons-append, nil-append) refl in
    rw (shape, e) refl

-- A text without line breaks is a line of its own before a break.
split_lines-line :
    (s t : String)
    → all_chars is_unbroken s ≡ true
    → split_lines (String.◌++◌ s (String.◌++◌ "\r\n" t)) ≡ s ∷ split_lines t
unfolding split_lines all_chars
split_lines-line String.[] t h = rw (nil-append) (split_lines-break t)
split_lines-line (String.◌∷◌ c s) t h =
    rw (cons-append, split_lines-line s t (ground arith)) (ground arith)

abbrev IsUnbroken : List String → Type 0
IsUnbroken lines = All (λ l. all_chars is_unbroken l ≡ true) lines

split_lines-join :
    (x : String) (xs : List String) (t : String)
    → IsUnbroken (x ∷ xs)
    → split_lines (String.◌++◌ (join "\r\n" (x ∷ xs)) (String.◌++◌ "\r\n" t))
      ≡ (x ∷ xs) ++ split_lines t
unfolding join
split_lines-join x [] t h = split_lines-line x t h.0
split_lines-join x (y ∷ ys) t h =
    let rest = join "\r\n" (y ∷ ys) in
    let end = String.◌++◌ "\r\n" t in
    rw (append_assoc x (String.◌++◌ "\r\n" rest) end, append_assoc "\r\n" rest end)
      (split_lines-line x (String.◌++◌ rest end) h.0
        ∙ ap (λ ls. x ∷ ls) (split_lines-join y ys t h.1))

two_lines : split_lines "\r\n" ≡ "" ∷ "" ∷ []
unfolding split_lines
two_lines = refl

split_lines-payload :
    (e : String × String) (fields : Dict String)
    → IsUnbroken (map header (e ∷ fields))
    → split_lines (payload (e ∷ fields)) ≡ map header (e ∷ fields) ++ "" ∷ "" ∷ []
unfolding format
split_lines-payload e fields h =
    split_lines-join (header e) (map header fields) "\r\n" h
    ∙ ap (λ ls. map header (e ∷ fields) ++ ls) two_lines

-- The header's names are given by the code, without line breaks.
abbrev pub HasUnbrokenNames : Dict String → Type 0
HasUnbrokenNames fields = All (λ e. all_chars is_unbroken e.0 ≡ true) fields

headers-IsUnbroken :
    (fields : Dict String)
    → HasUnbrokenNames fields
    → any (λ e. not (all_chars is_unbroken e.1)) fields ≡ false
    → IsUnbroken (map header fields)
headers-IsUnbroken [] names values = tt
headers-IsUnbroken ((key, value) ∷ fields) names values = (
  all_chars-format is_unbroken (key ∷ ": " ∷ value ∷ [])
      (names.0, (unfold all_chars in refl, (ground arith, tt))),
  headers-IsUnbroken fields names.1 (ground arith),
)

abbrev is_nil : Dict String → Bool
is_nil [] = true
is_nil (e ∷ fields) = false

lines_of :
    (fields : Dict String)
    → is_nil fields ≡ false
    → HasUnbrokenNames fields
    → any (λ e. not (all_chars is_unbroken e.1)) fields ≡ false
    → split_lines (payload fields) ≡ map header fields ++ "" ∷ "" ∷ []
lines_of [] some_field names values = absurd (ground arith)
lines_of (e ∷ fields) some_field names values =
    split_lines-payload e fields (headers-IsUnbroken (e ∷ fields) names values)

put_some : (d : Dict String) (k v : String) → is_nil (put d k v) ≡ false
unfolding put
put_some [] k v = refl
put_some ((j, w) ∷ d) k v = ground arith

-- What crossing the barrier asks for and leaves.
abbrev pub Crossed : Option (Result (Unit {0})) → Session → Session → Type 0
Crossed none s s' = s'.control_attempted ≡ s.control_attempted
Crossed (some barrier) s s' =
    (s.control_attempted ≡ false) × (barrier ≡ ok tt) × (s'.control_attempted ≡ true)

module _ (action_id : String) (fields : Dict String) where
  abbrev pub sent : Dict String
  sent = put fields "ActionID" action_id

  -- A `send` that returned is one payload more, whose lines are one for each field and the empty
  -- line that ends a frame. With a barrier, the barrier returned, and the session had not crossed
  -- one before. A `send` that raised has written nothing. The fields' names have no line break.
  pub send_cases :
      (before_write : Option (Result (Unit {0}))) (s : Session)
      → HasUnbrokenNames sent
      → (((send action_id fields before_write s).0 ≡ ok tt)
          × ((send action_id fields before_write s).1.written ≡ s.written ++ payload sent ∷ [])
          × (split_lines (payload sent) ≡ map header sent ++ "" ∷ "" ∷ [])
          × Crossed before_write s (send action_id fields before_write s).1)
        ⊎ ((e : Exception) × ((send action_id fields before_write s).0 ≡ err e)
            × ((send action_id fields before_write s).1.written ≡ s.written))
  unfolding send cross
  send_cases before_write s names =
      elim (Bool-cases (any (λ (e : String × String). not (all_chars is_unbroken e.1)) sent)) [
        | inl broken ↦
            inr (value_error "AMI header injection refused", rw broken refl, rw broken refl)
        | inr clean ↦ crossing before_write clean
      ]
    where
      reused : Exception
      reused = runtime_error "A control session cannot be reused"

      crossing :
          (b : Option (Result (Unit {0})))
          → any (λ (e : String × String). not (all_chars is_unbroken e.1)) sent ≡ false
          → (((send action_id fields b s).0 ≡ ok tt)
              × ((send action_id fields b s).1.written ≡ s.written ++ payload sent ∷ [])
              × (split_lines (payload sent) ≡ map header sent ++ "" ∷ "" ∷ [])
              × Crossed b s (send action_id fields b s).1)
            ⊎ ((e : Exception) × ((send action_id fields b s).0 ≡ err e)
                × ((send action_id fields b s).1.written ≡ s.written))
      crossing none clean = inl (
        rw clean refl,
        rw clean refl,
        lines_of sent (put_some fields "ActionID" action_id) names clean,
        rw clean refl,
      )
      crossing (some (ok done)) clean = elim (Bool-cases s.control_attempted) [
        | inl used ↦ inr (reused, rw (clean, used) refl, rw (clean, used) refl)
        | inr fresh ↦ inl (
          rw (clean, fresh) refl,
          rw (clean, fresh) refl,
          lines_of sent (put_some fields "ActionID" action_id) names clean,
          (fresh, refl, rw (clean, fresh) refl),
        )
      ]
      crossing (some (err e)) clean = elim (Bool-cases s.control_attempted) [
        | inl used ↦ inr (reused, rw (clean, used) refl, rw (clean, used) refl)
        | inr fresh ↦ inr (e, rw (clean, fresh) refl, rw (clean, fresh) refl)
      ]

abbrev pub is_event : Message → Bool
is_event m = has m "event" && not (has m "response")

-- A response that `await_response` returns comes after events alone, within the budget, and has the
-- action's own ActionID.
pub await_response_ok :
    (budget : ℕ) (action_id : String) (frames : List (Result Message)) {r : Message}
    → await_response budget action_id frames ≡ ok r
    → (skipped : List Message) × (rest : List (Result Message)) × (frames
        ≡ map ok skipped ++ ok r ∷ rest)
      × (length skipped < budget)
      × All (λ m. is_event m ≡ true) skipped
      × (is_event r ≡ false)
      × (field_is (get r "actionid") action_id ≡ true)
unfolding await_response
await_response_ok zero action_id frames e = absurd (ground arith)
await_response_ok (suc budget) action_id [] e = absurd (ground arith)
await_response_ok (suc budget) action_id (err x ∷ frames) e = absurd (ground arith)
await_response_ok (suc budget) action_id (ok m ∷ frames) {r} e = elim (Bool-cases (is_event m)) [
  | inl event ↦
      let (skipped, rest, same, few, events, last, own) =
        await_response_ok budget action_id frames (ground (arith, event)) in
      (m ∷ skipped, rest, ap (λ fs. ok m ∷ fs) same, omega (arith, few), (event, events), last, own)
  | inr response ↦ elim (Bool-cases (field_is (get m "actionid") action_id)) [
    | inl own ↦
        let same : m ≡ r = ground (arith, response, own) in
        (
          [],
          frames,
          ap (λ (x : Message). ok x ∷ frames) same,
          omega arith,
          tt,
          rw (← same) response,
          rw (← same) own,
        )
    | inr stale ↦ absurd (ground (arith, response, stale))
  ]
]
