-- ===== src/Transport/Client.antt =====
-- `AMITransport` of vnext/transport.py: the sessions that it opens, and the actions in them. The k-th
-- action of a session takes an ActionID and the frames that arrive after it, as `Peer` gives them.
use asl3_api.Prelude.{ℕ, String, Bool, false, not, Option, none, some, List, [], ◌∷◌, Dict, get}
use asl3_api.Errors.{protocol_error, Result}
use asl3_api.Effects.{Effect, pure, lift, require, ◌>>=◌, ◌>>◌}
use asl3_api.Transport.{Message, field_is}
use asl3_api.Transport.Session.{Session, send, await_response}

pub record Peer : Type 0 where
  -- the connection opens, and the banner begins as Asterisk's does
  pub opens : Result (Unit {0})
  pub greets : Result Bool
  pub action_id : ℕ → String
  pub frames : ℕ → List (Result Message)

pub record Login : Type 0 where
  pub username : String
  pub secret : String

abbrev pub new_session : Session
new_session = record { control_attempted = false; written = [] }

module _ (peer : Peer) (login : Login) where
  -- `action`: the write, and the response among at most 100 frames.
  unfoldable pub action : ℕ → Dict String → Option (Result (Unit {0})) → Effect Session Message
  unfolding send await_response
  action k fields before_write = do
    send (peer.action_id k) fields before_write
    lift (await_response 100 (peer.action_id k) (peer.frames k))

  abbrev pub login_fields : Dict String
  login_fields =
      ("Action", "Login")
      ∷ ("Username", login.username)
      ∷ ("Secret", login.secret)
      ∷ ("Events", "off")
      ∷ []

  -- `session` as far as its `yield`.
  unfoldable pub session : Effect Session (Unit {0})
  unfolding action
  session = do
    lift peer.opens
    greeted ← lift peer.greets
    require (not greeted) (protocol_error "Invalid AMI banner")
    answer ← action 0 login_fields none
    require (not (field_is (get answer "response") "Success"))
        (protocol_error "AMI authentication failed")

  abbrev pub status_fields : String → String → Dict String
  status_fields command node = ("Action", "RptStatus") ∷ ("Command", command) ∷ ("Node", node) ∷ []

  -- `observe`; the epoch is that of the session.
  unfoldable pub observe : String → Effect Session (Message × Message)
  unfolding session
  observe node = do
    session
    xstat ← action 1 (status_fields "XStat" node) none
    sawstat ← action 2 (status_fields "SawStat" node) none
    pure (xstat, sawstat)

  abbrev pub asterisk_version_fields : Dict String
  asterisk_version_fields = ("Action", "CoreSettings") ∷ []

  abbrev pub app_rpt_version_fields : Dict String
  app_rpt_version_fields = ("Action", "Command") ∷ ("Command", "rpt show version") ∷ []

  -- `software_versions`
  unfoldable pub software_versions : Effect Session (Message × Message)
  unfolding session
  software_versions = do
    session
    asterisk ← action 1 asterisk_version_fields none
    app_rpt ← action 2 app_rpt_version_fields none
    pure (asterisk, app_rpt)

  -- `dispatch`
  unfoldable pub dispatch : String → Result (Unit {0}) → Effect Session Message
  unfolding session
  dispatch command before_write = do
    session
    action 1 (("Action", "Command") ∷ ("Command", command) ∷ []) (some before_write)
