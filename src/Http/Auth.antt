-- ===== src/Http/Auth.antt =====
-- `credentials` and `authenticate` of vnext/api.py.
use asl3_api.Prelude.{
  zero, String, Bool, true, false, not, ◌&&◌, ◌||◌, Option, none, some, codes, is_empty, is_some,
  str_eq, if◌then◌else◌,
}
use asl3_api.Errors.{
  problem, attribute_error, key_error, type_error, Result, ok, err, ◌>>=◌, or_raise,
}
use asl3_api.Config.{
  ℤ, pos, negsuc, Value, null, bool, int, float, finite, str, seq, dict, Items, nil, cons, Entries,
  end, entry, get_entry,
}
use asl3_api.Config
use asl3_api.Transport.{is_infix}

-- `bool(value)`
abbrev pub is_truthy : Value → Bool
is_truthy null = false
is_truthy (bool b) = b
is_truthy (int (pos zero)) = false
is_truthy (int n) = true
is_truthy (float (finite (pos zero) d)) = false
is_truthy (float x) = true
is_truthy (str s) = not (is_empty s)
is_truthy (seq nil) = false
is_truthy (seq (cons v vs)) = true
is_truthy (dict end) = false
is_truthy (dict (entry k v d)) = true

-- The entry that stands in for an empty `api.credentials`.
abbrev pub legacy_entry : Value → Value
legacy_entry config = dict (
    entry "name" (str "legacy") (
      entry "key" (Config.get config "api.api_key" (str ""))
        (entry "authority" (seq (cons (str "observe") (cons (str "control") nil))) end)))

-- `entries`, if it is not empty.
unfoldable pub credentials_or : Value → Value → Value
credentials_or entries legacy = if is_truthy entries then entries else seq (cons legacy nil)

unfoldable pub credentials : Value → Value
unfolding credentials_or
credentials config =
    credentials_or (Config.get config "api.credentials" (seq nil)) (legacy_entry config)

abbrev pub find_entry : Entries → String → Option Value
find_entry end k = none
find_entry (entry j v rest) k = if str_eq j k then some v else find_entry rest k

-- `entry[key]`
abbrev pub item : Entries → String → Result Value
item d k = or_raise (find_entry d k) (key_error k)

abbrev pub is_text : Value → String → Bool
is_text (str t) s = str_eq t s
is_text _ s = false

abbrev pub has_text : Items → String → Bool
has_text nil s = false
has_text (cons v vs) s = is_text v s || has_text vs s

-- `text in value`
unfoldable pub contains : Value → String → Result Bool
contains (seq vs) s = ok (has_text vs s)
contains (str t) s = ok (is_infix (codes s) (codes t))
contains (dict d) s = ok (is_some (find_entry d s))
contains _ s = err (type_error "argument is not iterable")

pub data Authority : Type 0 where
  observe control : Authority

abbrev pub authority_text : Authority → String
authority_text observe = "observe"
authority_text control = "control"

-- `authority not in allowed and not (authority == "observe" and "control" in allowed)`
unfoldable pub is_denied : Authority → Value → Result Bool
unfolding contains
is_denied control allowed = do granted ← contains allowed "control"; ok (not granted)
is_denied observe allowed = do
  granted ← contains allowed "observe"
  stronger ← contains allowed "control"
  ok (not granted && not stronger)

-- What `authenticate` does with the credential of the key.
unfoldable pub grant : Authority → Entries → Result Value
unfolding is_denied
grant authority d = do
  allowed ← item d "authority"
  denied ← is_denied authority allowed
  if denied then err (problem 403 "AUTHORITY_DENIED") else item d "name"

-- `candidate and hmac.compare_digest(key.encode(), candidate.encode())`
unfoldable pub matches_key : String → Value → Result Bool
matches_key key (str candidate) = ok (not (is_empty candidate) && str_eq key candidate)
matches_key key candidate = if is_truthy candidate then err (attribute_error "encode") else ok false

-- One round of the loop; `rest` is the rounds after it.
unfoldable pub try_credential : String → Authority → Value → (rest : Result Value) → Result Value
unfolding matches_key grant
try_credential key authority (dict d) rest = do
  same ← matches_key key (get_entry d "key" (str ""))
  if same then grant authority d else rest
try_credential key authority _ rest = err (attribute_error "get")

unfoldable pub try_credentials : String → Authority → Items → Result Value
unfolding try_credential
try_credentials key authority nil = err (problem 401 "AUTHENTICATION_REQUIRED")
try_credentials key authority (cons v vs) =
    try_credential key authority v (try_credentials key authority vs)

-- The items that `for` takes from a value. Those of a text or of a dict are texts, and the first
-- of them ends the loop, since a text has no `get`.
unfoldable pub items_of : Value → Result Items
items_of (seq vs) = ok vs
items_of (str s) = ok (if is_empty s then nil else cons (str s) nil)
items_of (dict end) = ok nil
items_of (dict (entry k v d)) = ok (cons (str k) nil)
items_of _ = err (type_error "object is not iterable")

-- `authenticate`: the name of the credential.
unfoldable pub authenticate : Value → Option String → Authority → Result Value
unfolding try_credentials items_of credentials
authenticate config none authority = err (problem 401 "AUTHENTICATION_REQUIRED")
authenticate config (some key) authority =
    if is_empty key
    then err (problem 401 "AUTHENTICATION_REQUIRED")
    else do items ← items_of (credentials config); try_credentials key authority items
