-- ===== src/Config/Credentials.antt =====
-- The part of `Config.validate` of config.py that checks `api.credentials`.
use asl3_api.Prelude.{
  String, Bool, true, false, ◌&&◌, ◌||◌, Option, none, some, List, [], ◌∷◌, ◌++◌, any, is_empty,
  str_eq, if◌then◌else◌, ◌≡◌, refl, subst, arith, Option-cases, inl, inr,
}
use asl3_api.Config.{Value, null, str, seq, dict, Items, nil, cons, Entries, get_entry}
use asl3_api.Config

abbrev pub filled_text : Value → Option String
filled_text (str s) = if is_empty s then none else some s
filled_text _ = none

abbrev pub is_scope : Value → Bool
is_scope (str s) = str_eq s "observe" || str_eq s "control"
is_scope _ = false

abbrev pub are_scopes : Items → Bool
are_scopes nil = true
are_scopes (cons v vs) = is_scope v && are_scopes vs

abbrev pub is_authority : Value → Bool
is_authority (seq (cons v vs)) = are_scopes (cons v vs)
is_authority _ = false

abbrev pub both : Option String → Option String → Bool → Option (String × String)
both (some name) (some key) true = some (name, key)
both _ _ _ = none

-- The name and the key of an entry that passes the first test of the loop.
unfoldable pub credential : Value → Option (String × String)
unfolding get_entry
credential (dict d) =
    both (filled_text (get_entry d "name" null)) (filled_text (get_entry d "key" null))
      (is_authority (get_entry d "authority" null))
credential _ = none

abbrev pub malformed : String
malformed = "Each credential needs name, key, and observe/control authority"

abbrev pub repeated : Bool → List String
repeated true = "Credential names and keys must be unique" ∷ []
repeated false = []

-- One round of the loop, with the names and keys seen so far; `rest` is the rounds after it.
unfoldable pub check_entry :
    Option (String × String)
    → (rest : List String → List String → List String) → (names keys : List String) → List String
check_entry none rest names keys = malformed ∷ rest names keys
check_entry (some (name, key)) rest names keys =
    repeated (any (str_eq name) names || any (str_eq key) keys) ++ rest (name ∷ names) (key ∷ keys)

-- The errors that the loop appends.
unfoldable pub entry_errors : Items → (names keys : List String) → List String
unfolding credential check_entry
entry_errors nil names keys = []
entry_errors (cons entry entries) names keys =
    check_entry (credential entry) (entry_errors entries) names keys

unfoldable pub entries_errors : Value → List String
unfolding entry_errors
entries_errors (seq entries) = entry_errors entries [] []
entries_errors _ = "api.credentials must be a list" ∷ entry_errors nil [] []

unfoldable pub credential_errors : Value → List String
unfolding entries_errors
credential_errors config = entries_errors (Config.get config "api.credentials" (seq nil))

-- Entries that are well formed, with names and keys that differ from each other and from the given.
pub data AreDistinct : Items → List String → List String → Type 0 where
  no_more : (names keys : List String) → AreDistinct nil names keys
  one_more :
      (entry : Value) (entries : Items) (names keys : List String) (name key : String)
      → credential entry ≡ some (name, key)
      → any (str_eq name) names ≡ false
      → any (str_eq key) keys ≡ false
      → AreDistinct entries (name ∷ names) (key ∷ keys)
      → AreDistinct (cons entry entries) names keys

repeated_nil : (b : Bool) (rest : List String) → repeated b ++ rest ≡ [] → (b ≡ false) × (rest ≡ [])
repeated_nil true rest e = absurd (ground arith)
repeated_nil false rest e = (refl, e)

entry_errors_lem :
    (entries : Items) (names keys : List String)
    → entry_errors entries names keys ≡ []
    → AreDistinct entries names keys
unfolding entry_errors check_entry
entry_errors_lem nil names keys e = no_more names keys
entry_errors_lem (cons entry entries) names keys e = elim (Option-cases (credential entry)) [
  | inl bad ↦ absurd (ground (arith, bad))
  | inr ((name, key), good) ↦
      let round : check_entry (some (name, key)) (entry_errors entries) names keys ≡ [] =
        subst (λ c. check_entry c (entry_errors entries) names keys ≡ []) good e in
      let (fresh, later) =
        repeated_nil (any (str_eq name) names || any (str_eq key) keys)
          (entry_errors entries (name ∷ names) (key ∷ keys)) round in
      one_more entry entries names keys name key good (ground (arith, fresh))
        (ground (arith, fresh)) (entry_errors_lem entries (name ∷ names) (key ∷ keys) later)
]

-- A configuration whose credentials give no error has a list of well-formed entries there, and no
-- two of them have the same name or the same key.
pub credential_errors_nil :
    (config : Value)
    → credential_errors config ≡ []
    → (entries : Items) × (Config.get config "api.credentials" (seq nil) ≡ seq entries)
      × AreDistinct entries [] []
unfolding credential_errors entries_errors
credential_errors_nil config e = by_value (Config.get config "api.credentials" (seq nil)) e
  where
    by_value :
        (v : Value)
        → entries_errors v ≡ []
        → (entries : Items) × (v ≡ seq entries) × AreDistinct entries [] []
    by_value (seq entries) h = (entries, refl, entry_errors_lem entries [] [] h)
    by_value _ h = absurd (ground arith)
