-- ===== src/Effects.antt =====
-- Methods that change a state and may raise: what was changed before a raise stays changed.
use asl3_api.Prelude.{Bool, true, false, if◌then◌else◌, ◌≡◌, refl, arith}
use asl3_api.Errors.{Exception, Result, ok, err, raise_if}

abbrev pub Effect : Type 0 → Type 0 → Type 0
Effect S A = S → Result A × S

module _ {S A : Type 0} where
  abbrev pub pure : A → Effect S A
  pure a s = (ok a, s)

  abbrev pub raise : Exception → Effect S A
  raise e s = (err e, s)

  abbrev pub lift : Result A → Effect S A
  lift r s = (r, s)

  abbrev pub gets : (S → A) → Effect S A
  gets f s = (ok (f s), s)

abbrev pub modify : {S : Type 0} → (S → S) → Effect S (Unit {0})
modify f s = (ok tt, f s)

module _ {S A B : Type 0} where
  abbrev pub proceed : Result A → (A → Effect S B) → Effect S B
  proceed (ok a) f s = f a s
  proceed (err e) f s = (err e, s)

  infixl 10 ◌>>=◌ ◌>>◌
  abbrev pub ◌>>=◌ : Effect S A → (A → Effect S B) → Effect S B
  ◌>>=◌ m f s = let (r, s') = m s in proceed r f s'

  abbrev pub ◌>>◌ : Effect S A → Effect S B → Effect S B
  m >> n = m >>= λ _. n

abbrev pub require : {S : Type 0} → Bool → Exception → Effect S (Unit {0})
require failed e = lift (raise_if failed e)

-- A postcondition of a sequence: of each part, from the one before.
pub bind_keeps {ℓ} :
    {S A B : Type 0} (P : S → Type ℓ) (m : Effect S A) (f : A → Effect S B) (s : S)
    → P (m s).1
    → ((a : A) → m s ≡ (ok a, (m s).1) → P (f a (m s).1).1)
    → P ((m >>= f) s).1
bind_keeps {A} {B} P m f s first later = go (m s).0 refl
  where
    go : (r : Result A) → (m s).0 ≡ r → P (proceed r f (m s).1).1
    go (ok a) e = later a (λ i. (e i, (m s).1))
    go (err e) same = first

-- A sequence that returned: its first part returned, and so did the rest in the state it left.
pub bind_returned :
    {S A B : Type 0} (m : Effect S A) (f : A → Effect S B) (s : S) {b : B} {s' : S}
    → (m >>= f) s ≡ (ok b, s')
    → (a : A) × (m s ≡ (ok a, (m s).1)) × (f a (m s).1 ≡ (ok b, s'))
bind_returned {S} {A} {B} m f s {b} {s'} h = go (m s).0 refl h
  where
    go :
        (r : Result A)
        → (m s).0 ≡ r
        → proceed r f (m s).1 ≡ (ok b, s')
        → (a : A) × (m s ≡ (ok a, (m s).1)) × (f a (m s).1 ≡ (ok b, s'))
    go (ok a) e h' = (a, (λ i. (e i, (m s).1)), h')
    go (err e) same h' = absurd (ground arith)

-- What both branches of a test keep.
pub either-keeps {ℓ} :
    {S A : Type 0} (P : S → Type ℓ) (b : Bool) (m n : Effect S A) (s : S)
    → P (m s).1
    → P (n s).1
    → P ((if b then m else n) s).1
either-keeps P true m n s first second = first
either-keeps P false m n s first second = second
