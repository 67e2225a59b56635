-- ===== src/Prelude/Dicts.antt =====
-- Python's `dict` with text keys: the entries in insertion order.
use Prim.Native.String.{String}
use mathlib.Core.Path.{◌≡◌, refl}
use mathlib.Core.Bool.{Bool, false}
use mathlib.Core.List.{List, [], ◌∷◌, ◌++◌, map}
use mathlib.Core.Logic.{inl, inr}
use mathlib.Core.Option.{Option, none, some}
use native.Mathlib.Omega.{arith}
use text.Mathlib.Text.{◌==◌}
use text.Mathlib.TextEquality.{eq_iff}
use asl3_api.Prelude.Tests.{if◌then◌else◌, is_some, Bool-cases}

abbrev pub Dict {ℓ} : Type ℓ → Type ℓ
Dict V = List (String × V)

module _ {ℓ} {V : Type ℓ} where
  -- `d.get(k)`
  unfoldable pub get : Dict V → String → Option V
  get [] k = none
  get ((j, v) ∷ d) k = if j == k then some v else get d k

  -- `d[k] = v`: a key that is present keeps its place.
  unfoldable pub put : Dict V → String → V → Dict V
  put [] k v = (k, v) ∷ []
  put ((j, w) ∷ d) k v = if j == k then (j, v) ∷ d else (j, w) ∷ put d k v

  -- `k in d`
  abbrev pub has : Dict V → String → Bool
  has d k = is_some (get d k)

  abbrev pub keys : Dict V → List String
  keys = map (λ e. e.0)

  pub get-put :
      (d : Dict V) (k j : String) (v : V) → get (put d k v) j ≡ (if k == j then some v else get d j)
  unfolding get put
  get-put [] k j v = refl
  get-put ((i, w) ∷ d) k j v = ground (arith, eq_iff k j, eq_iff i k, eq_iff i j, get-put d k j v)

  pub put_new : (d : Dict V) (k : String) (a : V) → has d k ≡ false → put d k a ≡ d ++ (k, a) ∷ []
  unfolding put get
  put_new [] k a h = refl
  put_new ((j, b) ∷ d) k a h = elim (Bool-cases (j == k)) [
    | inl same ↦ absurd (ground (arith, same))
    | inr other ↦ rw (other, put_new d k a (ground (arith, other))) refl
  ]

  pub has-append :
      (d : Dict V) (k j : String) (a : V)
      → has d j ≡ false
      → k == j ≡ false
      → has (d ++ (k, a) ∷ []) j ≡ false
  unfolding get
  has-append [] k j a h n = rw n refl
  has-append ((i, b) ∷ d) k j a h n = elim (Bool-cases (i == j)) [
    | inl same ↦ absurd (ground (arith, same))
    | inr other ↦ rw other (has-append d k j a (ground (arith, other)) n)
  ]
