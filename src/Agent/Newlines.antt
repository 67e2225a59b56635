-- ===== src/Agent/Newlines.antt =====
-- The line ends of the audit log's file, as `open` translates them.
use Prim.Native.String
use asl3_api.Prelude.{
  ℕ, Char, String, code, Bool, true, false, not, ◌&&◌, all_chars, ◌==◌, nil-append, cons-append,
  ◌≡◌, refl, ap, sym, ◌∙◌, arith, inl, inr, Bool-cases,
}
use asl3_api.Transport.Frame.{begins_lf}
use asl3_api.Agent.Audit.{translated, universal}

abbrev pub is_not_newline : ℕ → Bool
is_not_newline n = not (n == 10) && not (n == 13)

-- The text is empty, or its last character is a newline.
abbrev pub ends_newline : String → Bool
ends_newline String.[] = true
ends_newline (String.◌∷◌ c String.[]) = code c == 10
ends_newline (String.◌∷◌ c (String.◌∷◌ d s)) = ends_newline (String.◌∷◌ d s)

translated-append :
    (c : Char) (b : Bool) (x y : String)
    → translated c b (String.◌++◌ x y) ≡ String.◌++◌ (translated c b x) y
translated-append c b x y = elim (Bool-cases (code c == 13)) [
  | inl returns ↦ elim (Bool-cases b) [
    | inl joined ↦ rw (returns, joined) refl
    | inr alone ↦ rw (returns, alone, cons-append) refl
  ]
  | inr plain ↦ rw (plain, cons-append) refl
]

translated-ends :
    (c : Char) (b : Bool) (z : Char) (zs : String)
    → ends_newline (String.◌∷◌ z zs) ≡ true
    → ends_newline (translated c b (String.◌∷◌ z zs)) ≡ true
translated-ends c b z zs h = elim (Bool-cases (code c == 13)) [
  | inl returns ↦ elim (Bool-cases b) [
    | inl joined ↦ rw (returns, joined) h
    | inr alone ↦ rw (returns, alone) h
  ]
  | inr plain ↦ rw plain h
]

-- A text that is not empty is not empty as it is read.
universal_filled :
    (c : Char) (s : String)
    → (z : Char) × (zs : String) × (universal (String.◌∷◌ c s) ≡ String.◌∷◌ z zs)
unfolding universal
universal_filled c String.[] = elim (Bool-cases (code c == 13)) [
  | inl returns ↦ ("\n", "", rw returns refl)
  | inr plain ↦ (c, "", rw plain refl)
]
universal_filled c (String.◌∷◌ d s) =
    let (z, zs, later) = universal_filled d s in
    elim (Bool-cases (code c == 13)) [
      | inl returns ↦ elim (Bool-cases (code d == 10)) [
        | inl feeds ↦ (z, zs, rw (returns, feeds) later)
        | inr other ↦ ("\n", universal (String.◌∷◌ d s), rw (returns, other) refl)
      ]
      | inr plain ↦ (c, universal (String.◌∷◌ d s), rw plain refl)
    ]

pub universal_line :
    (s : String)
    → all_chars is_not_newline s ≡ true
    → universal (String.◌++◌ s "\n") ≡ String.◌++◌ s "\n"
unfolding universal all_chars
universal_line String.[] h = rw nil-append refl
universal_line (String.◌∷◌ c s) h =
    let plain : (code c == 13) ≡ false = ground (arith, h) in
    rw (cons-append, universal_line s (ground (arith, h)), plain) refl

pub universal-append :
    (a b : String)
    → ends_newline a ≡ true
    → universal (String.◌++◌ a b) ≡ String.◌++◌ (universal a) (universal b)
unfolding universal
universal-append String.[] b h = rw (nil-append, nil-append) refl
universal-append (String.◌∷◌ c String.[]) b h =
    let plain : (code c == 13) ≡ false = ground (arith, h) in
    rw (cons-append, nil-append, plain, cons-append, nil-append) refl
universal-append (String.◌∷◌ c (String.◌∷◌ d s)) b h =
    ap universal (cons-append c (String.◌∷◌ d s) b)
    ∙ ap (λ t. translated c (begins_lf t) (universal t)) (cons-append d s b)
    ∙ ap (λ t. translated c (code d == 10) (universal t)) (sym (cons-append d s b))
    ∙ ap (translated c (code d == 10)) (universal-append (String.◌∷◌ d s) b h)
    ∙ translated-append c (code d == 10) (universal (String.◌∷◌ d s)) (universal b)

pub ends_newline-universal :
    (a : String) → ends_newline a ≡ true → ends_newline (universal a) ≡ true
unfolding universal
ends_newline-universal String.[] h = refl
ends_newline-universal (String.◌∷◌ c String.[]) h =
    let plain : (code c == 13) ≡ false = ground (arith, h) in rw plain h
ends_newline-universal (String.◌∷◌ c (String.◌∷◌ d s)) h =
    let (z, zs, filled) = universal_filled d s in
    rw filled (
      translated-ends c (code d == 10) z zs
        (rw (← filled) (ends_newline-universal (String.◌∷◌ d s) h)))
