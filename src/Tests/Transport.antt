-- ===== src/Tests/Transport.antt =====
-- A control action that is sent, and its response behind an event.
use asl3_api.Prelude.{
  ◌<◌, ◌≤◌, join, format, String, true, false, some, List, [], ◌∷◌, ◌++◌, map, length, All, Dict,
  get, put, partition, all_chars, ◌≡◌, ◌⊎◌, refl,
}
use asl3_api.Errors.{Exception, os_error, Result, ok, err}
use asl3_api.Transport.{Message, one, many, field_is}
use asl3_api.Transport.Frame.{split_lines, frame, read_headers, add_header, add_field}
use asl3_api.Transport.Session.{Session, header, payload, send, cross, await_response}
use asl3_api.Transport.Reads.{WritesOnly, reading, observe-WritesOnly}
use asl3_api.Transport.Client.{
  status_fields, observe, asterisk_version_fields, app_rpt_version_fields, software_versions, Peer,
  Login, new_session, action, session, dispatch,
}
use asl3_api.Transport.Dispatch.{dispatch-length}
use asl3_api.Transport.Actions.{action_cases}
use asl3_api.Transport.Framing.{sent, HasUnbrokenNames, Crossed, is_event, await_response_ok}

abbrev command_fields : Dict String
command_fields = ("Action", "Command") ∷ ("Command", "rpt cmd 2000 ilink 3 2001") ∷ []

abbrev fresh_session : Session
fresh_session = record { control_attempted = false; written = [] }

unbroken_names : HasUnbrokenNames (sent "id" command_fields)
unfolding put all_chars
unbroken_names = (refl, (refl, (refl, tt)))

abbrev an_event : Message
an_event = ("event", one "FullyBooted") ∷ []

abbrev accepted : Message
accepted = ("response", one "Success") ∷ ("actionid", one "7f") ∷ []

answered : await_response 100 "7f" (ok an_event ∷ ok accepted ∷ []) ≡ ok accepted
unfolding await_response get field_is
answered = refl

await_response_ok_example :
    (skipped : List Message) × (rest : List (Result Message)) × (ok an_event ∷ ok accepted ∷ []
      ≡ map ok skipped ++ ok accepted ∷ rest)
    × (length skipped < 100)
    × All (λ m. is_event m ≡ true) skipped
    × (is_event accepted ≡ false)
    × (field_is (get accepted "actionid") "7f" ≡ true)
await_response_ok_example = await_response_ok 100 "7f" (ok an_event ∷ ok accepted ∷ []) answered

-- Names in lower case are left as they are.
frame_test :
    frame (λ key. key) 40 (some "response: Success\r\nvar: A=1\r\nvar: B=2")
    ≡ ok (("response", one "Success") ∷ ("var", many ("A=1" ∷ "B=2" ∷ [])) ∷ [])
unfolding frame read_headers add_header add_field split_lines get put partition all_chars
frame_test = refl

-- A peer that accepts every action.
abbrev accepting : Peer
accepting = record {
  opens = ok tt;
  greets = ok true;
  action_id = λ k. "id";
  frames = λ k. ok (("response", one "Success") ∷ ("actionid", one "id") ∷ []) ∷ [];
}

abbrev account : Login
account = record { username = "asl3-api"; secret = "secret" }

dispatched_test :
    length (dispatch accepting account "rpt cmd 2000 status 1" (ok tt) new_session).1.written ≡ 2
unfolding dispatch session action send cross await_response field_is get put all_chars join format
dispatched_test = refl

dispatch-length_example :
    length (dispatch accepting account "rpt cmd 2000 status 1" (err os_error) new_session).1.written
    ≤ 1
dispatch-length_example = dispatch-length accepting account "rpt cmd 2000 status 1" (err os_error)

observe-WritesOnly_example :
    WritesOnly
      (reading accepting account
        (status_fields accepting account "XStat" "2000")
        (status_fields accepting account "SawStat" "2000"))
      (observe accepting account "2000" new_session).1
    × WritesOnly
        (reading accepting account
          (asterisk_version_fields accepting account)
          (app_rpt_version_fields accepting account))
        (software_versions accepting account new_session).1
observe-WritesOnly_example = observe-WritesOnly accepting account "2000"

abbrev acted : Result Message × Session
acted = action accepting account 1 command_fields (some (ok tt)) fresh_session

action_cases_example :
    ((acted.0 ≡ await_response 100 "id" (accepting.frames 1))
      × (acted.1.written ≡ fresh_session.written ++ payload (sent "id" command_fields) ∷ [])
      × (split_lines (payload (sent "id" command_fields))
          ≡ map header (sent "id" command_fields) ++ "" ∷ "" ∷ [])
      × Crossed (some (ok tt)) fresh_session acted.1)
    ⊎ ((e : Exception) × (acted.0 ≡ err e) × (acted.1.written ≡ fresh_session.written))
action_cases_example =
    action_cases accepting account 1 command_fields (some (ok tt)) fresh_session unbroken_names
