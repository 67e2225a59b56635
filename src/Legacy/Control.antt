-- ===== src/Legacy/Control.antt =====
-- `AMIClient` of ami_client.py: its connection, its commands, and its control helpers. `sent` is a
-- history: the commands that were given to the manager.
pub mod Refused
pub mod Confirmed
use asl3_api.Prelude.{
  ℕ, zero, suc, String, Bool, true, false, not, ◌&&◌, ◌||◌, Option, none, some, List, [], ◌∷◌, ◌++◌,
  any, codes, format, str_eq, if◌then◌else◌,
}
use asl3_api.Errors.{runtime_error, type_error, command_refused, Result, ok, err}
use asl3_api.Errors as Errors
use asl3_api.Effects.{Effect, lift, ◌>>=◌, ◌>>◌}
use asl3_api.Models.{DirectLink}
use asl3_api.Transport.{starts}
use asl3_api.Legacy.Output.{Response, rejection_reason}

pub record Client : Type 0 where
  pub has_manager : Bool
  pub connected : Bool
  pub sent : List String

-- `connect`, for whether the manager connected.
unfoldable pub connect : Result (Unit {0}) → Effect Client (Unit {0})
connect (ok u) c = (ok tt, record c { has_manager = true; connected = true })
connect (err e) c = (err e, record c { has_manager = true; connected = false })

abbrev closed : Result (Unit {0}) → Client → Result (Unit {0}) × Client
closed (ok u) c = (ok tt, record c { connected = false })
closed (err (type_error why)) c = (ok tt, record c { connected = false })
closed (err e) c = (err e, c)

-- `disconnect`, for what `manager.close()` returned or raised.
unfoldable pub disconnect : Result (Unit {0}) → Effect Client (Unit {0})
disconnect answer c = if c.has_manager then closed answer c else (ok tt, c)

abbrev pinged : Result (Unit {0}) → Client → Bool × Client
pinged (ok u) c = (true, record c { connected = true })
pinged (err e) c = (false, record c { connected = false })

-- `check_ami_health`, for what the ping returned or raised.
unfoldable pub check_ami_health : Result (Unit {0}) → Client → Bool × Client
check_ami_health answer c =
    if c.has_manager then pinged answer c else (false, record c { connected = false })

abbrev pub observations : List String
observations = "rpt show variables " ∷ "rpt stats " ∷ "rpt nodes " ∷ "rpt lstats " ∷ []

-- `command.startswith((…))`
abbrev pub is_observation : String → Bool
is_observation command = any (λ prefix. starts (codes prefix) (codes command)) observations

-- `send_command`, for what the manager answers.
unfoldable pub send_command : {A : Type 0} → Result A → String → Effect Client A
send_command answer command c =
    if not (is_observation command)
    then (err (runtime_error "Control requires the durable v1 operation service"), c)
    else if not c.connected || not c.has_manager
    then (err (runtime_error "AMI is not connected"), c)
    else (answer, record c { sent = c.sent ++ command ∷ [] })

pub data Helper : Type 0 where
  connect_node : (node_number : String) (monitor_only : Bool) → Helper
  disconnect_node : String → Helper
  disconnect_all force_id say_time say_version say_status : Helper

abbrev pub helper_body : Helper → List String
helper_body (connect_node n monitor_only) =
    "ilink " ∷ (if monitor_only then "2" else "3") ∷ " " ∷ n ∷ []
helper_body (disconnect_node n) = "ilink 11 " ∷ n ∷ []
helper_body disconnect_all = "ilink 6" ∷ []
helper_body force_id = "status 1" ∷ []
helper_body say_time = "status 2" ∷ []
helper_body say_version = "status 3" ∷ []
helper_body say_status = "ilink 5" ∷ []

-- The command of a helper, from the node `config.node_number`.
abbrev pub helper_command : String → Helper → String
helper_command node helper = format ("rpt cmd " ∷ node ∷ " " ∷ format (helper_body helper) ∷ [])

abbrev pub is_linked : String → List DirectLink → Bool
is_linked node = any (λ link. str_eq link.node node)

-- The loop of `connect_node` (`wanted` is true) and of `disconnect_node` (false): at most `rounds`
-- looks, of which the k-th returns or raises `look k`.
unfoldable pub await_link :
    String → (wanted : Bool) → (look : ℕ → Result (List DirectLink)) → (rounds k : ℕ) → Result Bool
await_link node wanted look zero k = ok false
await_link node wanted look (suc rounds) k =
    let rest = await_link node wanted look rounds (suc k) in
    Errors.◌>>=◌ (look k) λ links.
      if (if wanted then is_linked node links else not (is_linked node links))
      then ok true
      else rest

-- What a helper does after its command: the field "success" of its answer.
abbrev pub confirm :
    Helper
    → (look : ℕ → Result (List DirectLink)) → (connect_timeout disconnect_timeout : ℕ) → Result Bool
confirm (connect_node n monitor_only) look on off = await_link n true look on 0
confirm (disconnect_node n) look on off = await_link n false look off 0
confirm _ look on off = ok true

abbrev pub refusal : String → Option String → Result (Unit {0})
refusal command none = ok tt
refusal command (some reason) = err (command_refused command reason)

-- The announcements go through `_send_checked`, which reads the answer for a refusal.
abbrev pub checked : String → Helper → Response → Result (Unit {0})
checked node (connect_node n monitor_only) r = ok tt
checked node (disconnect_node n) r = ok tt
checked node disconnect_all r = ok tt
checked node helper r = refusal (helper_command node helper) (rejection_reason r)

-- A helper, for what the manager answers.
unfoldable pub control :
    String
    → Helper
    → Result Response
    → (look : ℕ → Result (List DirectLink)) → (connect_timeout disconnect_timeout : ℕ)
    → Effect Client Bool
unfolding send_command
control node helper answer look on off = do
  response ← send_command answer (helper_command node helper)
  lift (checked node helper response)
  lift (confirm helper look on off)
