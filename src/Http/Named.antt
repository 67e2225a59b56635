-- ===== src/Http/Named.antt =====
-- The code of a problem, read back from its type and from its title.

use asl3_api.Prelude.{
  ℕ, ◌-◌, String, Bool, true, false, ◌||◌, ◌&&◌, List, [], ◌∷◌, ◌++◌, all, map, codes, all_chars,
  ◌==◌, if◌then◌else◌, ◌≡◌, refl, arith,
}
use asl3_api.Transport.{lower}
use asl3_api.Http.Problems.{urn, is_capital, is_small, title_from, problem_response}

-- The codes of the program are in capital letters and underscores.
abbrev pub is_code_char : ℕ → Bool
is_code_char n = is_capital n || n == b'_'

abbrev pub capital_of : ℕ → ℕ
capital_of n = if is_small n then n - 32 else if n == b' ' then b'_' else n

capitals-lower : (s : String) → all_chars is_code_char s ≡ true → map capital_of (lower s) ≡ codes s
unfolding lower all_chars
capitals-lower String.[] h = refl
capitals-lower (String.◌∷◌ c s) h = ground (arith, capitals-lower s)

capitals-title_from :
    (within : Bool) (s : String)
    → all_chars is_code_char s ≡ true
    → map capital_of (title_from within s) ≡ codes s
unfolding title_from all_chars
capitals-title_from within String.[] h = refl
capitals-title_from within (String.◌∷◌ c s) h =
    ground (arith, capitals-title_from true s, capitals-title_from false s)

abbrev pub is_type_char : ℕ → Bool
is_type_char n = is_small n || n == b'_'

-- Words of which the first letter alone is a capital; `within` says that a letter came before.
unfoldable pub is_title : (within : Bool) → List ℕ → Bool
is_title within [] = true
is_title within (n ∷ ns) =
    let inside = is_title true ns in
    let outside = is_title false ns in
    if within
    then (if is_small n then inside else n == b' ' && outside)
    else (if is_capital n then inside else n == b' ' && outside)

lower-is_type_char :
    (s : String) → all_chars is_code_char s ≡ true → all is_type_char (lower s) ≡ true
unfolding lower all_chars
lower-is_type_char String.[] h = refl
lower-is_type_char (String.◌∷◌ c s) h = ground (arith, lower-is_type_char s)

title_from-is_title :
    (within : Bool) (s : String)
    → all_chars is_code_char s ≡ true
    → is_title within (title_from within s) ≡ true
unfolding title_from all_chars is_title
title_from-is_title within String.[] h = refl
title_from-is_title within (String.◌∷◌ c s) h =
    ground (arith, title_from-is_title true s, title_from-is_title false s)

-- For a code of capital letters and underscores, the type of the problem is the prefix and then small
-- letters and underscores, the title has spaces, and words whose first letter alone is a capital, and
-- the code can be read back from either, so different codes have different types and titles.
pub problem_response-named :
    (path : String) (status : ℕ) (problem_code detail : String)
    → all_chars is_code_char problem_code ≡ true
    → ((tail : List ℕ) × ((problem_response path status problem_code detail).type_codes
          ≡ urn ++ tail)
        × (all is_type_char tail ≡ true)
        × (map capital_of tail ≡ codes problem_code))
      × (is_title false (problem_response path status problem_code detail).title_codes ≡ true)
      × (map capital_of (problem_response path status problem_code detail).title_codes
          ≡ codes problem_code)
unfolding problem_response
problem_response-named path status problem_code detail h = (
  (lower problem_code, refl, lower-is_type_char problem_code h, capitals-lower problem_code h),
  title_from-is_title false problem_code h,
  capitals-title_from false problem_code h,
)
