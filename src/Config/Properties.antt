-- ===== src/Config/Properties.antt =====
-- `load` and the typed properties of config.py.
use asl3_api.Prelude.{ℕ, zero, suc, ◌/◌, String, Bool, false, Option, if◌then◌else◌}
use asl3_api.Errors.{
  overflow_error, value_error, type_error, attribute_error, os_error, Result, ok, err, or_raise,
}
use asl3_api.Config.{ℤ, pos, negsuc, finite, infinite, nan, Value, bool, int, float, str, get}
use asl3_api.Config.Validate.{value_text}
use asl3_api.Http.Auth.{is_truthy}
use asl3_api.Legacy.Durations.{int_of}

-- `load`: whether the file exists, and what `yaml.safe_load` gives or raises for it.
unfoldable pub load : (exists : Bool) → Result Value → Result Value
load exists document = if exists then document else err os_error

abbrev pub ami_host : Value → Value
ami_host config = get config "ami.host" (str "127.0.0.1")

abbrev pub ami_username : Value → Value
ami_username config = get config "ami.username" (str "asl3-api")

abbrev pub ami_password : Value → Value
ami_password config = get config "ami.password" (str "")

-- The text of a float, of a list or of a dict is left out: it is not that of a node number.
abbrev pub node_number : Value → Option String
node_number config = value_text (get config "node.number" (str ""))

abbrev pub node_callsign : Value → Value
node_callsign config = get config "node.callsign" (str "")

abbrev pub api_host : Value → Value
api_host config = get config "api.host" (str "127.0.0.1")

abbrev pub api_key : Value → Value
api_key config = get config "api.api_key" (str "")

abbrev pub webhooks_enabled : Value → Bool
webhooks_enabled config = is_truthy (get config "webhooks.enabled" (bool false))

abbrev pub webhook_url : Value → Value
webhook_url config = get config "webhooks.url" (str "")

abbrev pub audit_file : Value → Value
audit_file config = get config "logging.audit_file" (str "/opt/asl3-api/audit.log")

-- `value.upper()`, for Python's `str.upper`.
unfoldable pub log_level : (upper : String → String) → Value → Result String
log_level upper config = upper_of (get config "logging.level" (str "INFO"))
  where
    upper_of : Value → Result String
    upper_of (str s) = ok (upper s)
    upper_of v = err (attribute_error "upper")

abbrev pub minus : ℕ → ℤ
minus zero = pos zero
minus (suc n) = negsuc n

-- `digit` gives the values of Unicode's decimal digits.
module _ (digit : ℕ → Option ℕ) where
  -- `int(value)`, which cuts a fraction off.
  unfoldable pub to_int : Value → Result ℤ
  to_int (int n) = ok n
  to_int (bool b) = ok (pos (if b then 1 else 0))
  to_int (float (finite (pos n) d)) = ok (pos (n / suc d))
  to_int (float (finite (negsuc n) d)) = ok (minus (suc n / suc d))
  to_int (float (infinite is_negative)) = err overflow_error
  to_int (float nan) = err (value_error "cannot convert float NaN to integer")
  to_int (str s) = or_raise (int_of digit s) (value_error "invalid literal for int()")
  to_int _ = err (type_error "int() argument must be a string or a real number")

  -- `int(self.get(key, default))`
  unfoldable pub number_at : String → (default : ℕ) → Value → Result ℤ
  unfolding to_int
  number_at key default config = to_int (get config key (int (pos default)))

  abbrev pub ami_port : Value → Result ℤ
  ami_port = number_at "ami.port" 5038

  abbrev pub api_port : Value → Result ℤ
  api_port = number_at "api.port" 8073

  abbrev pub events_keepalive_interval : Value → Result ℤ
  events_keepalive_interval = number_at "events.keepalive_interval" 15

  abbrev pub events_snapshot_interval : Value → Result ℤ
  events_snapshot_interval = number_at "events.snapshot_interval" 10

  abbrev pub rate_limit : Value → Result ℤ
  rate_limit = number_at "security.rate_limit_per_minute" 60

  abbrev pub connect_timeout : Value → Result ℤ
  connect_timeout = number_at "timeouts.connect_max_seconds" 12

  abbrev pub disconnect_timeout : Value → Result ℤ
  disconnect_timeout = number_at "timeouts.disconnect_max_seconds" 8
