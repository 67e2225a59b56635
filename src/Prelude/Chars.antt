-- ===== src/Prelude/Chars.antt =====
-- Character tests on formatted texts.
use Prim.Native.Nat.{ℕ}
use Prim.Native.Char.{code}
use Prim.Native.String
use Prim.Native.String.{String}
use mathlib.Core.Path.{◌≡◌, refl}
use mathlib.Core.Bool.{Bool, true}
use mathlib.Core.List.{List, [], ◌∷◌}
use native.Mathlib.Omega.{arith}
use text.Mathlib.TextLemmas.{nil-append, cons-append}
use asl3_api.Prelude.Lists.{All}
use asl3_api.Prelude.Texts.{all_chars, format}

module _ (p : ℕ → Bool) where
  pub all_chars-append :
      (s t : String)
      → all_chars p s ≡ true
      → all_chars p t ≡ true
      → all_chars p (String.◌++◌ s t) ≡ true
  unfolding all_chars
  all_chars-append String.[] t hs ht = rw nil-append ht
  all_chars-append (String.◌∷◌ c s) t hs ht = rw cons-append (ground (arith, all_chars-append s t))

  pub all_chars-format :
      (parts : List String)
      → All (λ s. all_chars p s ≡ true) parts
      → all_chars p (format parts) ≡ true
  unfolding format
  all_chars-format [] h = unfold all_chars in refl
  all_chars-format (s ∷ parts) h =
      all_chars-append s (format parts) h.0 (all_chars-format parts h.1)

  pub all_chars_mono :
      (q : ℕ → Bool)
      → ((n : ℕ) → p n ≡ true → q n ≡ true)
      → (s : String) → all_chars p s ≡ true
      → all_chars q s ≡ true
  unfolding all_chars
  all_chars_mono q f String.[] h = refl
  all_chars_mono q f (String.◌∷◌ c s) h = ground (arith, f (code c), all_chars_mono q f s)
