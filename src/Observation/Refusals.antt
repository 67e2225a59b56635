-- ===== src/Observation/Refusals.antt =====
-- The exceptions of the parsers of vnext/observation.py: each is one that `parse_snapshot` catches.
use asl3_api.Prelude.{
  partition, String, Bool, true, false, Option, none, some, List, [], ◌∷◌, Dict, Char, get, inl,
  inr, arith, split, ◌≡◌, refl,
}
use asl3_api.Errors.{
  Exception, value_error, type_error, key_error, Result, ok, err, ◌>>=◌, Result-cases,
}
use asl3_api.Models.{LinkMode, ConnectionStatus}
use asl3_api.Transport.{Message}
use asl3_api.Observation.{safe_name, only, scalar, values}
use asl3_api.Observation.Alinks.{
  Alink, mode_letter, keyed_letter, cut, read_letters, add_entry, add_token, add_tokens, add_all,
  parse_texts, parse_alinks,
}
use asl3_api.Observation.Native.{
  add_variable, add_variables, add_conn, add_conns, read_connections, parse_xstat, parse_sawstat,
  xstat_conn, sawstat_conn,
}
use asl3_api.Observation.Snapshot.{direct_link, direct_links}

abbrev pub is_refusal : Exception → Bool
is_refusal (value_error text) = true
is_refusal (type_error text) = true
is_refusal (key_error key) = true
is_refusal _ = false

abbrev pub refuses {ℓ} : {A : Type ℓ} → Result A → Bool
refuses (ok a) = true
refuses (err e) = is_refusal e

pub bind-refuses {ℓ κ} :
    {A : Type ℓ} {B : Type κ} (m : Result A) (f : A → Result B)
    → refuses m ≡ true
    → ((a : A) → refuses (f a) ≡ true)
    → refuses (m >>= f) ≡ true
bind-refuses (ok a) f h k = k a
bind-refuses (err e) f h k = h

safe_name-refuses : (name : String) → refuses (safe_name name) ≡ true
unfolding safe_name
safe_name-refuses name = ground arith

only-refuses : (key : String) (vs : List String) → refuses (only key vs) ≡ true
unfolding only
only-refuses key [] = refl
only-refuses key (v ∷ []) = refl
only-refuses key (v ∷ w ∷ vs) = refl

scalar-refuses : (message : Message) (key : String) → refuses (scalar message key) ≡ true
unfolding scalar
scalar-refuses message key = only-refuses key (values message key)

read_letters-refuses :
    (mode : Option LinkMode) (keyed : Option Bool) → refuses (read_letters mode keyed) ≡ true
unfolding read_letters
read_letters-refuses mode keyed = ground arith

add_entry-refuses :
    (parts : String × Char × Char) (result : Dict Alink) → refuses (add_entry parts result) ≡ true
unfolding add_entry
add_entry-refuses (name, mode, keyed) result =
    ground
      (arith, safe_name-refuses name, read_letters-refuses (mode_letter mode) (keyed_letter keyed))

add_token-refuses : (token : String) (result : Dict Alink) → refuses (add_token token result) ≡ true
unfolding add_token
add_token-refuses (String.◌∷◌ a (String.◌∷◌ b (String.◌∷◌ c s))) result =
    add_entry-refuses (cut a b (String.◌∷◌ c s)) result
add_token-refuses _ result = refl

add_tokens-refuses :
    (tokens : List String) (result : Dict Alink) → refuses (add_tokens tokens result) ≡ true
unfolding add_tokens
add_tokens-refuses [] result = refl
add_tokens-refuses (token ∷ tokens) result =
    bind-refuses (add_token token result) (add_tokens tokens) (add_token-refuses token result)
      (add_tokens-refuses tokens)

add_all-refuses : (count : String) (tokens : List String) → refuses (add_all count tokens) ≡ true
unfolding add_all
add_all-refuses count [] = refl
add_all-refuses count (first ∷ tokens) = ground (arith, add_tokens-refuses tokens [])

pub parse_alinks-refuses : (value count : Option String) → refuses (parse_alinks value count) ≡ true
unfolding parse_alinks parse_texts
parse_alinks-refuses none count = refl
parse_alinks-refuses (some value) none = refl
parse_alinks-refuses (some value) (some count) =
    ground (arith, add_all-refuses count (split b',' value))

add_variables-refuses :
    (rows : List String) (variables : Dict String) → refuses (add_variables rows variables) ≡ true
unfolding add_variables add_variable
add_variables-refuses [] variables = refl
add_variables-refuses (row ∷ rows) variables =
    bind-refuses (add_variable (partition b'=' row) variables) (add_variables rows) (ground arith)
      (add_variables-refuses rows)

module _ {V : Type 0} (action : String) (conn : String → Option (String × V)) where
  add_conn-refuses :
      (parts : Option (String × V)) (found : Dict V)
      → refuses (add_conn action conn parts found) ≡ true
  unfolding add_conn
  add_conn-refuses none found = refl
  add_conn-refuses (some (name, v)) found = ground (arith, safe_name-refuses name)

  add_conns-refuses :
      (rows : List String) (found : Dict V) → refuses (add_conns action conn rows found) ≡ true
  unfolding add_conns
  add_conns-refuses [] found = refl
  add_conns-refuses (row ∷ rows) found =
      bind-refuses (add_conn action conn (conn row) found) (add_conns action conn rows)
        (add_conn-refuses (conn row) found) (add_conns-refuses rows)

read_connections-refuses :
    (response : Message) (variables : Dict String)
    → refuses (read_connections response variables) ≡ true
unfolding read_connections
read_connections-refuses response variables = ground (
  arith,
  add_conns-refuses "XStat" xstat_conn (values response "conn") [],
  parse_alinks-refuses (get variables "RPT_ALINKS") (get variables "RPT_NUMALINKS"),
)

pub parse_xstat-refuses :
    (response : Message) (node : String) → refuses (parse_xstat response node) ≡ true
unfolding parse_xstat
parse_xstat-refuses response node =
    let variables = add_variables-refuses (values response "var") [] in
    let last = read_connections-refuses response in
    elim (Result-cases (add_variables (values response "var") [])) [
      | inl (vs, read) ↦
          ground (
            arith,
            scalar-refuses response "response",
            scalar-refuses response "node",
            read,
            last vs,
          )
      | inr (e, failed) ↦ ground (
        arith,
        scalar-refuses response "response",
        scalar-refuses response "node",
        failed,
        variables,
      )
    ]

pub parse_sawstat-refuses :
    (response : Message) (node : String) → refuses (parse_sawstat response node) ≡ true
unfolding parse_sawstat
parse_sawstat-refuses response node = ground (
  arith,
  scalar-refuses response "response",
  scalar-refuses response "node",
  add_conns-refuses "SawStat" sawstat_conn (values response "conn") [],
)

pub direct_links-refuses :
    (alinks : Dict Alink) (saw_keyed : Dict Bool) (connections : Dict ConnectionStatus)
    → refuses (direct_links alinks saw_keyed connections) ≡ true
unfolding direct_links direct_link
direct_links-refuses alinks saw_keyed [] = refl
direct_links-refuses alinks saw_keyed ((name, status) ∷ cs) =
    ground (arith, direct_links-refuses alinks saw_keyed cs)
