-- ===== src/Http/Accounts.antt =====
-- One entry of valid credentials: its fields, and a round of `authenticate` on it.
use asl3_api.Prelude.{
  String, Bool, true, false, ◌||◌, Option, none, some, is_empty, str_eq, if◌then◌else◌, ◌≡◌, refl,
  sym, ap, ◌∙◌, ◌⊎◌, inl, inr, arith, Bool-cases,
}
use asl3_api.Errors.{problem, Result, ok, err}
use asl3_api.Config.{Value, null, str, seq, dict, Items, nil, cons, Entries, end, entry, get_entry}
use asl3_api.Config.Credentials.{filled_text, is_authority, both, credential}
use asl3_api.Http.Auth.{
  find_entry, has_text, contains, Authority, observe, control, is_denied, grant, matches_key,
  try_credential,
}

abbrev pub is_nil : Items → Bool
is_nil nil = true
is_nil (cons v vs) = false

-- The value is one of the items.
abbrev pub Has : Value → Items → Type 0
Has v nil = ⊥
Has v (cons w ws) = (v ≡ w) ⊎ Has v ws

abbrev pub allows : Authority → Items → Bool
allows observe scopes = has_text scopes "observe" || has_text scopes "control"
allows control scopes = has_text scopes "control"

pub get_entry_found :
    (d : Entries) (k : String) (default : Value)
    → (find_entry d k ≡ none) × (get_entry d k default ≡ default)
      ⊎ ((v : Value) × (find_entry d k ≡ some v) × (get_entry d k default ≡ v))
unfolding get_entry
get_entry_found end k default = inl (refl, refl)
get_entry_found (entry j v rest) k default = elim (Bool-cases (str_eq j k)) [
  | inl here ↦ inr (v, rw here refl, rw here refl)
  | inr other ↦ rw other (get_entry_found rest k default)
]

-- The fields of an entry that is well formed.
pub record IsAccount (d : Entries) (name key : String) : Type 0 where
  pub name_is : find_entry d "name" ≡ some (str name)
  pub key_is : find_entry d "key" ≡ some (str key)
  pub key_filled : is_empty key ≡ false
  pub scopes : Items
  pub authority_is : find_entry d "authority" ≡ some (seq scopes)

pub filled_text-some :
    (v : Value) {s : String} → filled_text v ≡ some s → (v ≡ str s) × (is_empty s ≡ false)
filled_text-some (str t) {s} e = elim (Bool-cases (is_empty t)) [
  | inl empty ↦ absurd (ground (arith, empty))
  | inr filled ↦ let same : t ≡ s = ground (arith, filled) in (ap str same, rw (← same) filled)
]
filled_text-some _ e = absurd (ground arith)

pub both-some :
    (n k : Option String) (a : Bool) {name key : String}
    → both n k a ≡ some (name, key)
    → (n ≡ some name) × (k ≡ some key) × (a ≡ true)
both-some none k a e = absurd (ground arith)
both-some (some n) none a e = absurd (ground arith)
both-some (some n) (some k) false e = absurd (ground arith)
both-some (some n) (some k) true e = (ground arith, ground arith, refl)

pub is_authority-seq : (v : Value) → is_authority v ≡ true → (scopes : Items) × (v ≡ seq scopes)
is_authority-seq (seq vs) h = (vs, refl)
is_authority-seq _ h = absurd (ground arith)

pub found_of_entry :
    (d : Entries) (k : String) {v : Value}
    → get_entry d k null ≡ v
    → (v ≡ null → ⊥)
    → find_entry d k ≡ some v
found_of_entry d k e n = elim (get_entry_found d k null) [
  | inl (missing, default) ↦ absurd (n (sym e ∙ default))
  | inr (w, found, got) ↦ found ∙ ap some (sym got ∙ e)
]

pub account :
    (d : Entries) {name key : String}
    → credential (dict d) ≡ some (name, key)
    → IsAccount d name key
unfolding credential
account d {name} {key} e =
    let (n, k, a) =
      both-some (filled_text (get_entry d "name" null)) (filled_text (get_entry d "key" null))
        (is_authority (get_entry d "authority" null)) e in
    let (name_is, _) = filled_text-some (get_entry d "name" null) n in
    let (key_is, filled) = filled_text-some (get_entry d "key" null) k in
    let (scopes, authority_is) = is_authority-seq (get_entry d "authority" null) a in
    record {
      name_is = found_of_entry d "name" name_is (λ x. ground arith);
      key_is = found_of_entry d "key" key_is (λ x. ground arith);
      key_filled = filled;
      scopes = scopes;
      authority_is = found_of_entry d "authority" authority_is (λ x. ground arith);
    }

pub key_of_account :
    (d : Entries) {name key : String} → IsAccount d name key → get_entry d "key" (str "") ≡ str key
key_of_account d a = elim (get_entry_found d "key" (str "")) [
  | inl (missing, _) ↦ absurd (ground (arith, missing, a.key_is))
  | inr (v, found, got) ↦ got ∙ some_inj (sym found ∙ a.key_is)
]
  where
    some_inj : {v w : Value} → some v ≡ some w → v ≡ w
    some_inj e = ground arith

-- What the credential of an account grants.
abbrev pub verdict : Authority → String → Items → Result Value
verdict authority name scopes =
    if allows authority scopes then ok (str name) else err (problem 403 "AUTHORITY_DENIED")

pub grant_account :
    (authority : Authority) (d : Entries) {name key : String} (a : IsAccount d name key)
    → grant authority d ≡ verdict authority name a.scopes
unfolding grant is_denied contains
grant_account observe d a = rw (a.authority_is, a.name_is) (ground arith)
grant_account control d a = rw (a.authority_is, a.name_is) (ground arith)

-- The loop at an account: its key decides whether the loop ends there.
pub try_account :
    (key : String) (authority : Authority) (d : Entries) (rest : Result Value) {name own : String}
    (a : IsAccount d name own)
    → try_credential key authority (dict d) rest
      ≡ (if str_eq key own then verdict authority name a.scopes else rest)
unfolding try_credential matches_key
try_account key authority d rest {name} {own} a =
    rw (key_of_account d a, a.key_filled, grant_account authority d a) refl
