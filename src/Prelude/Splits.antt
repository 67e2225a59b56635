-- ===== src/Prelude/Splits.antt =====
-- Splitting at commas what was joined by them.
use Prim.Native.Nat.{ℕ}
use Prim.Native.String
use Prim.Native.String.{String}
use mathlib.Core.Path.{◌≡◌, refl}
use mathlib.Core.Bool.{Bool, true, not}
use mathlib.Core.List.{List, [], ◌∷◌}
use native.Mathlib.Omega.{arith}
use text.Mathlib.TextLemmas.{nil-append, cons-append}
use asl3_api.Prelude.Lists.{All}
use asl3_api.Prelude.Tests.{◌==◌}
use asl3_api.Prelude.Texts.{all_chars, split, join}

abbrev pub is_plain : ℕ → Bool
is_plain n = not (n == b',')

split_plain : (s : String) → all_chars is_plain s ≡ true → split b',' s ≡ s ∷ []
unfolding split all_chars
split_plain String.[] h = refl
split_plain (String.◌∷◌ c s) h = rw (split_plain s (ground arith)) (ground arith)

split-comma :
    (s t : String)
    → all_chars is_plain s ≡ true
    → split b',' (String.◌++◌ s (String.◌++◌ "," t)) ≡ s ∷ split b',' t
unfolding split all_chars
split-comma String.[] t h = rw (nil-append, cons-append, nil-append) refl
split-comma (String.◌∷◌ c s) t h = rw (cons-append, split-comma s t (ground arith)) (ground arith)

pub split-join :
    (s : String) (parts : List String)
    → All (λ p. all_chars is_plain p ≡ true) (s ∷ parts)
    → split b',' (join "," (s ∷ parts)) ≡ s ∷ parts
unfolding join
split-join s [] h = split_plain s h.0
split-join s (t ∷ parts) h =
    rw (split-comma s (join "," (t ∷ parts)) h.0, split-join t parts h.1) refl
