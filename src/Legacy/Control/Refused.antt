-- ===== src/Legacy/Control/Refused.antt =====
-- The control helpers against the durable service.
use asl3_api.Prelude.{
  some_inj, ℕ, String, code, Option, none, some, Bool, true, false, List, [], ◌∷◌, ◌++◌, codes,
  format, if◌then◌else◌, nil-append, cons-append, ◌≡◌, refl, subst, ap, sym, ◌∙◌, arith,
}
use Prim.Native.String
use text.Mathlib.TextLemmas.{append-nil}
use asl3_api.Errors.{runtime_error, Result, ok, err}
use asl3_api.Models.{
  Kind, link_node, unlink_node, unlink_all, announce, Request, DirectLink, is_node,
}
use asl3_api.Models.Command.{
  Mode, transceive, monitor, identify, command_for, command_body, validate_node,
}
use asl3_api.Models.Command as Command
use asl3_api.Http.Routes.{dump_link, dump_announcement}
use asl3_api.Http.Guarded.{link_built, unlink_built, unlink_all_built, announcement_built}
use asl3_api.Transport.{starts}
use asl3_api.Legacy.Output.{Response}
use asl3_api.Legacy.Control.{
  Client, is_observation, send_command, Helper, connect_node, disconnect_node, disconnect_all,
  force_id, say_time, say_version, say_status, helper_command, helper_body, control,
}

codes-append : (s t : String) → codes (String.◌++◌ s t) ≡ codes s ++ codes t
codes-append String.[] t = rw nil-append refl
codes-append (String.◌∷◌ c s) t = rw cons-append (ap (λ cs. code c ∷ cs) (codes-append s t))

not_observation : (rest : String) → is_observation (String.◌++◌ "rpt cmd " rest) ≡ false
unfolding starts
not_observation rest = rw (codes-append "rpt cmd " rest) refl

-- No control helper of the old client sends anything, whatever the state of its connection: each
-- raises, and leaves the client as it was.
pub control-refused :
    (node : String) (helper : Helper) (answer : Result Response)
    (look : ℕ → Result (List DirectLink)) (on off : ℕ) (c : Client)
    → control node helper answer look on off c
      ≡ (err (runtime_error "Control requires the durable v1 operation service"), c)
unfolding control send_command format
control-refused node helper answer look on off c = rw not_observation refl

-- The v1 operation of a helper; the time and the version have none.
abbrev pub operation_of : Helper → Option (Kind × Request)
operation_of (connect_node n monitor_only) = some (
  link_node,
  dump_link (record { node = n; mode = if monitor_only then monitor else transceive }),
)
operation_of (disconnect_node n) = some (unlink_node, ("node", n) ∷ [])
operation_of disconnect_all = some (unlink_all, [])
operation_of force_id = some (announce, dump_announcement identify)
operation_of say_status = some (announce, dump_announcement Command.AnnouncementKind.status)
operation_of _ = none

abbrev pub target_of : Helper → Option String
target_of (connect_node n monitor_only) = some n
target_of (disconnect_node n) = some n
target_of _ = none

abbrev pub is_valid_target : Option String → Bool
is_valid_target none = true
is_valid_target (some n) = is_node n

of_body :
    (node : String) (kind : Kind) (request : Request) (body : String)
    → is_node node ≡ true
    → command_body kind request ≡ ok body
    → command_for node kind request ≡ ok (format ("rpt cmd " ∷ node ∷ " " ∷ body ∷ []))
unfolding command_for validate_node
of_body node kind request body valid built = rw (valid, built) refl

connect_built :
    (n : String) (monitor_only : Bool)
    → is_node n ≡ true
    → command_body link_node
        (dump_link (record { node = n; mode = if monitor_only then monitor else transceive }))
      ≡ ok (format (helper_body (connect_node n monitor_only)))
connect_built n true target = link_built (record { node = n; mode = monitor }) target
connect_built n false target = link_built (record { node = n; mode = transceive }) target

single : (s : String) → format (s ∷ []) ≡ s
unfolding format
single s = append-nil s

-- The command of a helper is the one that `command_for` builds for the same operation, for a valid
-- node and a valid target.
pub helper_command-command_for :
    (node : String) (helper : Helper) {kind : Kind} {request : Request}
    → is_node node ≡ true
    → is_valid_target (target_of helper) ≡ true
    → operation_of helper ≡ some (kind, request)
    → command_for node kind request ≡ ok (helper_command node helper)
helper_command-command_for node helper {kind} {request} valid target e = by_helper helper target e
  where
    moved :
        (h : Helper) (k : Kind) (r : Request)
        → command_body k r ≡ ok (format (helper_body h))
        → ◌≡◌ {A = Option (Kind × Request)} (some (k, r)) (some (kind, request))
        → command_for node kind request ≡ ok (helper_command node h)
    moved h k r built same =
        subst (λ (p : Kind × Request). command_for node p.0 p.1 ≡ ok (helper_command node h))
          (some_inj same) (of_body node k r (format (helper_body h)) valid built)

    by_helper :
        (h : Helper)
        → is_valid_target (target_of h) ≡ true
        → operation_of h ≡ some (kind, request)
        → command_for node kind request ≡ ok (helper_command node h)
    by_helper (connect_node n monitor_only) t g =
        moved (connect_node n monitor_only) _ _ (connect_built n monitor_only t) g
    by_helper (disconnect_node n) t g = moved (disconnect_node n) _ _ (unlink_built n t) g
    by_helper disconnect_all t g =
        moved disconnect_all _ _ (unlink_all_built ∙ ap ok (sym (single "ilink 6"))) g
    by_helper force_id t g =
        moved force_id _ _ (announcement_built identify ∙ ap ok (sym (single "status 1"))) g
    by_helper say_status t g =
        moved say_status _ _
          (announcement_built Command.AnnouncementKind.status ∙ ap ok (sym (single "ilink 5"))) g
    by_helper say_time t g = absurd (ground arith)
    by_helper say_version t g = absurd (ground arith)
