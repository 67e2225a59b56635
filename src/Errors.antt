-- ===== src/Errors.antt =====
-- The exceptions of the program, and calls that may raise one.
-- `ProblemError` is of vnext/models.py, `ProtocolError` of vnext/transport.py; the others are
-- Python's and sqlite3's. The prose `detail` of a problem is not modelled.
use mathlib.Core.Path.{◌≡◌, refl}
use asl3_api.Prelude.{ℕ, String, Bool, true, false, Option, none, some, ◌⊎◌, inl, inr, arith}

pub data Exception : Type 0 where
  problem : (status : ℕ) (problem_code : String) → Exception
  value_error type_error protocol_error runtime_error : String → Exception
  key_error attribute_error : String → Exception
  validation_error overflow_error : Exception
  command_refused : (command reason : String) → Exception
  sqlite_error os_error timeout_error incomplete_read_error limit_overrun_error : Exception

pub data Result {ℓ} (A : Type ℓ) : Type ℓ where
  ok : A → Result A
  err : Exception → Result A

-- `if test: raise e`
abbrev pub raise_if : Bool → Exception → Result (Unit {0})
raise_if true e = err e
raise_if false e = ok tt

-- What follows a call runs only if the call returned.
infixl 10 ◌>>=◌
abbrev pub ◌>>=◌ {ℓ κ} :
    {A : Type ℓ} {B : Type κ} (call : Result A) (rest : A → Result B) → Result B
ok value >>= rest = rest value
err e >>= rest = err e

abbrev pub or_raise {ℓ} : {A : Type ℓ} → Option A → Exception → Result A
or_raise none e = err e
or_raise (some a) e = ok a

infixl 10 ◌>>◌
abbrev pub ◌>>◌ {κ} : {B : Type κ} (check : Result (Unit {0})) (rest : Result B) → Result B
check >> rest = check >>= λ _. rest

-- A sequence that returned: its first call returned, and so did the rest.
pub >>=-returned {ℓ κ} :
    {A : Type ℓ} {B : Type κ} (call : Result A) (rest : A → Result B) {b : B}
    → (call >>= rest) ≡ ok b
    → (value : A) × (call ≡ ok value) × (rest value ≡ ok b)
>>=-returned (err e) rest h = absurd (ground arith)
>>=-returned (ok value) rest h = (value, refl, h)

pub raise_if-eq-ok : (b : Bool) (e : Exception) → raise_if b e ≡ ok tt → b ≡ false
raise_if-eq-ok true e h = cc
raise_if-eq-ok false e h = refl

pub Result-cases {ℓ} :
    {A : Type ℓ} (r : Result A) → ((a : A) × (r ≡ ok a)) ⊎ ((e : Exception) × (r ≡ err e))
Result-cases (ok a) = inl (a, refl)
Result-cases (err e) = inr (e, refl)
