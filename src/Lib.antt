-- ===== src/Lib.antt =====
-- asl3-api: an HTTP service that observes and controls one AllStarLink node through the Asterisk
-- manager interface (AMI), with a durable ledger of its control operations.
--
-- The parts and the files that model them:
--   Models, Models/Command: vnext/models.py, the public types, node numbers and `command_for`, which
--     turns a request into one app_rpt command. `Request` is a dict of texts.
--   Config: `Config.get` of config.py, over the YAML document as a value. Config/Credentials has the
--     part of `validate` that checks api.credentials, Config/Validate the rest of it, and
--     Config/Properties `load` and the typed properties.
--   Policy: `TrafficPolicy` of vnext/policy.py, `setting` and `enforce`.
--   Transport: the messages of vnext/transport.py and `command_rejected`. Transport/Frame reads a
--     frame (`AMISession.frame`), Transport/Session writes an action and takes its response
--     (`AMISession.action`, as `send` and `await_response`), and Transport/Client has the sessions of
--     `AMITransport`, with what the peer does as an argument (`Peer`). Framing, Actions, Dispatch and
--     Reads have proofs.
--   Observation: vnext/observation.py. Its children are Alinks (`parse_alinks`), Native
--     (`_parse_xstat`, `_parse_sawstat`), Snapshot (`unknown`, `parse_snapshot`, and what `snapshot` does
--     under its lock) and Observer (`Observer`, its lock, the calls that wait for it, and
--     `invalidate`). The patterns XSTAT_CONN and SAWSTAT_CONN are read as words between white space.
--   Ledger: the operations table of vnext/ledger.py as a list of rows, with its constraints and
--     transactions that can fail; Ledger/Methods has the methods of `Ledger`, Ledger/Canonical the
--     canonical text of a request, and Ledger/Owner `ControlOwner`, over the descriptors that the
--     processes have open on the lock file. The other files are proofs; Ledger/Persistence says what a
--     table keeps when it grows, and Ledger/Calls has any sequence of calls of its methods.
--   Service: `Platform` of vnext/service.py. The state is a record (`Platform`) with the database,
--     the control slot, the tasks and the control messages written so far. Python runs a coroutine
--     without interruption from one `await` to the next, so each such stretch is one function:
--     Service/Admission has `admit`, Service/Execution `execute` and `verify_effect` cut at their
--     awaits (`Stage`, `resume`, with the handlers in `settle` and `step_task`), Service/Runtime
--     `start` and `close`, Service/Status `effect_status`, Service/Evidence `software_evidence`.
--     Service/Reach is the step relation: any order of admissions, events to tasks, starts, shutdowns
--     and crashes of the process, with the observations that a run gives to a task (`Observes`).
--     Service/Safety and Service/Record have what each stretch keeps, and the files of Service/Reach
--     what follows for runs: Dispatch, Recorded, Retried, Restarted, Closed, Opened, and Verified,
--     which also has the rounds of `verify_effect`'s loop.
--   Software: vnext/software.py, the version parsers.
--   Http: vnext/api.py. Http/Auth has `credentials` and `authenticate`, Http/Routes the control
--     routes with their schemas and refusals (`control_route`), the routes over the ledger and
--     `control_enabled`, Http/Resources the state, the capabilities and the directory, Http/Problems
--     the problem responses and their handlers, and Http/Stream the event stream. Http/Frames is the
--     text of both event streams, and how a client reads it. A JSON object is a `Value`.
--   Events: Events/Listener is `AMIEventListener` of ami_event_listener.py, with its queues, and
--     Events/Webhooks is `EventHandler` of event_handler.py; View, Recent, Replay
--     and Notified have proofs.
--   Directory: `NodeCache` of node_cache.py, with the answer of the HTTP request as an argument.
--   Legacy: ami_client.py. Legacy/Client is the part of `AMIClient` that reads snapshots,
--     Legacy/Control its connection, its commands and its control helpers, and Legacy/Output the
--     reading of answers (`normalize_ami_output`, `_rejection_reason`). Legacy/Durations and
--     Legacy/Reports are its parsers of CLI output.
--   Agent: asl_agent.py. Agent/Routes has the old control routes as they lead to the service
--     (`legacy_route`), with their authentication and their validators, Agent/Audit the audit log,
--     Agent/Lifespan the calls of `lifespan` in their order, Agent/Health and Agent/Features the health
--     and node routes, and Agent/Stream the generator of the event stream.
--   Prelude, Errors, Effects: what the files share. A call that may raise gives a `Result`; a method
--     that changes a state and may raise is an `Effect`, which keeps the state beside the exception.
--
-- How they interact: the routes of /v1 and the old routes both admit operations in the service. The
-- service asks the policy with a snapshot of the observer, and the transport calls the service's
-- barrier right before it writes, which commits DISPATCH_STARTED in the ledger. The listener, the
-- webhooks and the old client read snapshots of the same observer.
--
-- Bounds and fuel: the wait for a response reads at most 100 frames, and the old client's waits for a
-- link take at most the configured number of looks, as the loops of the source do (`budget`,
-- `rounds`). A number is printed (Prelude/Numbers) with fuel one more than it, which is more than it
-- has digits. All other functions recurse on their lists and texts.
--
-- Parameters: `Env` gives what sqlite3, the clock and uuid4 answer (whether a transaction fails, the
-- time, the new id); `str.lower` is a parameter of Transport/Frame; the times and the epoch of a
-- snapshot are arguments. `arrange` in Events is the order in which Python iterates over a set,
-- `digit` in Legacy/Durations gives the values of Unicode's decimal digits, and `is_decimal` in
-- Agent/Routes says which characters are such digits. What panoramisk and aiohttp answer is an
-- argument.
--
-- Not modelled: the timestamps of events; the prose of problem details and of pydantic errors; YAML
-- mapping keys that are not texts, and the text of a float; a call of `Observer.snapshot` that is
-- cancelled; the interpreter's limit on the digits that `int` reads;
-- the sockets and the timeouts of AMI sessions; the dependencies, schemas and rate limits as FastAPI,
-- pydantic and slowapi apply them (`Call` and `Caller` have what they hand over); the raw output that
-- GET /status can add; the wiring of the applications (the routers, the middleware, the start of the
-- server) and the logging.
pub mod Prelude
pub mod Errors
pub mod Effects
pub mod Models
pub mod Observation
pub mod Ledger
pub mod Config
pub mod Policy
pub mod Transport
pub mod Software
pub mod Http
pub mod Events
pub mod Legacy
pub mod Directory
pub mod Agent
pub mod Service
mod Tests
