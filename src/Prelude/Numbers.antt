-- ===== src/Prelude/Numbers.antt =====
-- The decimal text of a number.
use Prim.Native.Nat.{ℕ, zero, suc, ◌/◌, ◌%◌}
use Prim.Native.String
use Prim.Native.String.{String}
use mathlib.Core.List.{List, [], ◌∷◌}
use asl3_api.Prelude.Tests.{leb, if◌then◌else◌}

abbrev pick : ℕ → List String → String
pick n [] = ""
pick zero (s ∷ rest) = s
pick (suc n) (s ∷ rest) = pick n rest

abbrev digit_text : ℕ → String
digit_text n = pick n ("0" ∷ "1" ∷ "2" ∷ "3" ∷ "4" ∷ "5" ∷ "6" ∷ "7" ∷ "8" ∷ "9" ∷ [])

-- The decimal text of a number before `later`. A number has fewer digits than `fuel` if it is less.
unfoldable pub show_from : (fuel n : ℕ) → String → String
show_from zero n later = later
show_from (suc fuel) n later =
    let text = String.◌++◌ (digit_text (n % 10)) later in
    let rest = show_from fuel (n / 10) text in if leb n 9 then text else rest

unfoldable pub show : ℕ → String
unfolding show_from
show n = show_from (suc n) n ""
