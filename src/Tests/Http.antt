-- ===== src/Tests/Http.antt =====
-- The resources of /v1, with the configuration of two credentials.
use asl3_api.Prelude.{
  true, false, none, some, [], ◌∷◌, any, str_eq, String, ◌≡◌, refl, ◌⊎◌, inl, inr, all_chars, count,
  format, get, split,
}
use asl3_api.Errors.{problem, ok, err, Exception}
use asl3_api.Models.{link_node, Operation, is_node}
use asl3_api.Models.Command.{command_for, link_request, read_mode}
use asl3_api.Config.{Value, str, seq, Items, nil, cons, Entries, entry, end}
use asl3_api.Config as Config
use asl3_api.Ledger as Ledger
use asl3_api.Ledger.Methods as Methods
use asl3_api.Config.Credentials.{credential}
use asl3_api.Service.{Platform, Settings, on_ledger, call_ledger, require_ledger, opened}
use asl3_api.Http.Auth.{
  control, credentials, credentials_or, items_of, contains, is_denied, grant, matches_key,
  try_credential, try_credentials, authenticate,
}
use asl3_api.Http.Access.{authenticate_known, keys_of}
use asl3_api.Http.Routes.{
  Call, post_link, dump, schema, is_idempotency_key, refuse_schema, control_route, operations,
  control_enabled,
}
use asl3_api.Http.Guarded.{Admits, control_route_cases, schema-command_for}
use asl3_api.Tests.Service.{settings, written, link_request_2001}
use asl3_api.Ledger.Canonical.{canonical}
use asl3_api.Tests.Config.{two_credentials, remote, viewer, credentials_accepted}

unfoldable two : Unit {0}
unfolding authenticate credentials credentials_or items_of contains is_denied grant matches_key
    try_credential try_credentials Config.get Config.get_path Config.get_entry operations on_ledger
    call_ledger require_ledger Methods.list Methods.documents Ledger.select Ledger.transaction dump
    schema is_idempotency_key refuse_schema control_route control_enabled link_request read_mode
    is_node all_chars count format get split
two = tt

abbrev pub secured : Settings
secured = record settings { config = two_credentials }

abbrev entries : Items
entries = cons remote (cons viewer nil)

abbrev viewer_entry : Entries
viewer_entry =
    entry "name" (str "viewer")
      (entry "key" (str "k2") (entry "authority" (seq (cons (str "observe") nil)) end))

listed : Config.get two_credentials "api.credentials" (seq nil) ≡ seq entries
unfolding two
listed = refl

unknown : any (str_eq "k3") (keys_of entries) ≡ false
unfolding credential split
unknown = refl

is_viewer : credential viewer ≡ some ("viewer", "k2")
unfolding credential split
is_viewer = refl

viewer_may_not_control :
    authenticate two_credentials (some "k2") control ≡ err (problem 403 "AUTHORITY_DENIED")
unfolding two
viewer_may_not_control = refl

authenticate_known_example :
    authenticate two_credentials (some "k2") control ≡ err (problem 403 "AUTHORITY_DENIED")
unfolding two
authenticate_known_example =
    authenticate_known two_credentials entries credentials_accepted listed control viewer_entry
      "viewer" "k2" (cons (str "observe") nil) (inr (inl refl)) is_viewer refl

abbrev call : Call
call = record {
  api_key = some "k1";
  idempotency_key = some "again";
  limited = false;
  path_node = "";
  body = ("node", "2001") ∷ ("mode", "monitor") ∷ [];
}

control_route_cases_example :
    Admits secured post_link call written
    ⊎ ((e : Exception) × (control_route secured post_link call written ≡ (err e, written)))
control_route_cases_example = control_route_cases secured post_link call written

schema-command_for_example :
    (command : String) × (command_for "2000" link_node (("node", "2001") ∷ ("mode", "monitor") ∷ [])
      ≡ ok command)
unfolding two
schema-command_for_example = schema-command_for "2000" post_link call refl refl

abbrev linking : Operation
linking =
    Methods.new_operation "2000" link_node link_request_2001 "remote" "a1"
      "2026-01-01T00:00:00+00:00"

abbrev pub ready : Platform
ready = record {
  db = record { rows = Methods.new_row "2000" linking none ∷ []; transactions = 1 };
  ledger = opened;
  owner_held = true;
  tasks = [];
  busy_operation_id = none;
  healthy = true;
  closing = false;
  generation = 0;
  writes = [];
}

listing :
    operations secured (some "k2") 50 0 ready
    ≡ (ok (linking ∷ []), record ready { db = record { rows = ready.db.rows; transactions = 2 } })
unfolding two canonical
listing = refl
