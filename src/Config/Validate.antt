-- ===== src/Config/Validate.antt =====
-- The rest of `Config.validate` of config.py.
use asl3_api.Prelude.{
  ◌*◌, suc, String, Bool, true, false, not, ◌&&◌, Option, none, some, List, [], ◌∷◌, ◌++◌, any,
  format, show, str_eq, leb, if◌then◌else◌,
}
use asl3_api.Errors.{type_error, value_error, Result, ok, err, ◌>>=◌}
use asl3_api.Config.{
  ℤ, pos, negsuc, Value, null, bool, int, float, finite, str, seq, dict, Items, nil,
}
use asl3_api.Config
use asl3_api.Config.Credentials.{credential_errors}
use asl3_api.Models.{Kind, link_node, unlink_node, unlink_all, announce, is_node}
use asl3_api.Ledger.Canonical.{kind_text}
use asl3_api.Policy.{PolicyState, on_active, on_unknown, state_text, setting}
use asl3_api.Http.Auth.{is_truthy, contains}

-- `str(value)`, for what can have the form of a node number; the text of a list or of a dict begins
-- with a bracket, and that of a float has a point, an exponent or a name.
abbrev pub value_text : Value → Option String
value_text null = some "None"
value_text (bool true) = some "True"
value_text (bool false) = some "False"
value_text (int (pos n)) = some (show n)
value_text (int (negsuc n)) = some (format ("-" ∷ show (suc n) ∷ []))
value_text (str s) = some s
value_text _ = none

abbrev pub is_node_text : Option String → Bool
is_node_text none = false
is_node_text (some s) = is_node s

-- `value in {…}`, a set of texts: a list or a dict has no hash.
unfoldable pub in_set : Value → List String → Result Bool
in_set (str s) texts = ok (any (str_eq s) texts)
in_set (seq vs) texts = err (type_error "unhashable type: 'list'")
in_set (dict d) texts = err (type_error "unhashable type: 'dict'")
in_set _ texts = ok false

abbrev pub report : Bool → String → List String
report failed text = if failed then text ∷ [] else []

-- The errors that one check appends, if it does not raise.
abbrev pub Check : Type 0
Check = Result (List String)

unfoldable pub check_node : Value → Check
check_node config = ok (
    report (not (is_node_text (value_text (Config.get config "node.number" (str "")))))
      "node.number must be 1-6 ASCII digits with no leading zero")

unfoldable pub check_host : Value → Check
unfolding in_set
check_host config = do
  local ←
      in_set (Config.get config "ami.host" (str "127.0.0.1"))
        ("127.0.0.1" ∷ "::1" ∷ "localhost" ∷ [])
  ok (report (not local) "ami.host must remain localhost")

unfoldable pub check_callsign : Value → Check
check_callsign config = ok (
    report (not (is_truthy (Config.get config "node.callsign" (str ""))))
      "node.callsign is required but not set")

unfoldable pub check_password : Value → Check
check_password config = ok (
    report (not (is_truthy (Config.get config "ami.password" (str ""))))
      "ami.password is required but not set")

unfoldable pub check_key : Value → Check
check_key config = ok (
    report
      (not (is_truthy (Config.get config "api.api_key" (str "")))
        && not (is_truthy (Config.get config "api.credentials" (seq nil))))
      "api.api_key is required but not set")

-- A round of the loop over the user name and the password.
unfoldable pub check_newlines : Value → Check
unfolding contains
check_newlines value = do
  returns ← contains value "\r"
  feeds ← if returns then ok true else contains value "\n"
  ok (report feeds "AMI credentials must not contain newlines")

-- `isinstance(value, (int, float)) and 0 < value <= 120`. A Boolean is an int.
abbrev pub is_seconds : Value → Bool
is_seconds (int (pos n)) = leb 1 n && leb n 120
is_seconds (bool b) = b
is_seconds (float (finite (pos n) d)) = leb 1 n && leb n (120 * suc d)
is_seconds _ = false

unfoldable pub check_seconds : Value → String → Check
check_seconds config name = ok (
    report (not (is_seconds (Config.get config name (int (pos 5)))))
      (format (name ∷ " must be between 0 and 120 seconds" ∷ [])))

unfoldable pub check_policy : Value → Kind → PolicyState → Check
unfolding in_set
check_policy config kind state = do
  known ← in_set (setting config kind state) ("allow" ∷ "deny" ∷ [])
  ok (
      report (not known) (
        format (
          "policy.traffic."
          ∷ kind_text kind
          ∷ "."
          ∷ state_text state
          ∷ " must be allow or deny"
          ∷ [])))

abbrev pub policy_checks : Value → Kind → List Check
policy_checks config kind =
    check_policy config kind on_active ∷ check_policy config kind on_unknown ∷ []

abbrev pub checks : Value → List Check
checks config =
    check_node config
      ∷ check_host config
      ∷ check_callsign config
      ∷ check_password config
      ∷ check_key config
      ∷ ok (credential_errors config)
      ∷ check_newlines (Config.get config "ami.username" (str "asl3-api"))
      ∷ check_newlines (Config.get config "ami.password" (str ""))
      ∷ check_seconds config "timeouts.ami_seconds"
      ∷ check_seconds config "timeouts.observation_seconds"
      ∷ check_seconds config "operations.dispatch_timeout"
      ∷ check_seconds config "operations.effect_timeout"
      ∷ policy_checks config link_node
    ++ policy_checks config announce
    ++ policy_checks config unlink_node
    ++ policy_checks config unlink_all

-- The errors of all checks, in their order.
unfoldable pub all_errors : List Check → Check
all_errors [] = ok []
all_errors (check ∷ rest) = check >>= λ errors. all_errors rest >>= λ later. ok (errors ++ later)

abbrev pub raise_errors : List String → Result (Unit {0})
raise_errors [] = ok tt
raise_errors (e ∷ es) = err (value_error "ASL3-API config validation failed")

-- `validate`
unfoldable pub validate : Value → Result (Unit {0})
unfolding all_errors
validate config = all_errors (checks config) >>= raise_errors
