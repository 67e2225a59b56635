-- ===== src/Http/Guarded.antt =====
-- What a control route does to the service, and what a read route returns.
use asl3_api.Prelude.{
  ℕ, zero, suc, ◌≤◌, String, true, false, not, ◌&&◌, Option, List, [], ◌∷◌, length, take, drop, get,
  format, leb, ◌≡◌, refl, sym, ap, subst, ◌∙◌, ◌↔◌, ◌⊎◌, inl, inr, arith, Bool-cases,
}
use mathlib.Core.List.{reverse}
use asl3_api.Errors.{Exception, problem, Result, ok, err, Result-cases, raise_if, raise_if-eq-ok}
use asl3_api.Effects.{bind_returned, lift, require}
use asl3_api.Models.{link_node, unlink_node, unlink_all, announce, Request, Operation, is_node}
use asl3_api.Models.Command.{
  validate_node, Mode, transceive, monitor, LinkBody, AnnouncementKind, identify, read_mode,
  read_announcement, link_request, announcement_request, is_unsupported, ilink_mode, announcement,
  command_body, command_for,
}
use asl3_api.Models.Surface.{link_request_ok}
use asl3_api.Config.{Value}
use asl3_api.Ledger.{select, Row}
use asl3_api.Ledger.Methods as Methods
use asl3_api.Ledger.Methods.{documents}
use asl3_api.Ledger.Safety.{select_value}
use asl3_api.Service.{
  Platform, Settings, on_ledger, call_ledger, require_ledger, Connection, absent, opened, closed,
  is_absent,
}
use asl3_api.Service.Admission.{admit}
use asl3_api.Http.Auth.{observe, control, authenticate}
use asl3_api.Http.Routes.{
  Call, Route, post_link, delete_link, delete_links, post_announcement, kind_of, dump, dump_link,
  dump_announcement, schema, credential_text, or_refuse, refuse_schema, named_kind,
  is_idempotency_key, control_route, operations, control_enabled,
}

module _ (c : Settings) (route : Route) (q : Call) (p : Platform) where
  -- A control route that has come to an admission, and what was checked before.
  pub record Admits : Type 0 where
    pub name : Value
    pub request : Request
    pub credential : String
    pub authenticated : authenticate c.config q.api_key control ≡ ok name
    pub conforms : schema route q ≡ ok request
    pub within_limit : q.limited ≡ false
    pub named : credential_text name ≡ ok credential
    pub admits :
        control_route c route q p ≡ admit c (kind_of route) request credential q.idempotency_key p

  -- A control route either admits, for a credential that has the control authority, a request that
  -- the schema accepts and a caller within the rate limit, or it raises and leaves the service as
  -- it is.
  pub control_route_cases : Admits ⊎ ((e : Exception) × (control_route c route q p ≡ (err e, p)))
  unfolding control_route
  control_route_cases = elim (Result-cases (authenticate c.config q.api_key control)) [
    | inr (e, denied) ↦ inr (e, rw denied refl)
    | inl (name, granted) ↦ elim (Result-cases (schema route q)) [
      | inr (e, malformed) ↦ inr (e, rw (granted, malformed) refl)
      | inl (request, conforms) ↦ elim (Bool-cases q.limited) [
        | inl limited ↦ inr (problem 429 "RATE_LIMITED", rw (granted, conforms, limited) refl)
        | inr within ↦ elim (Result-cases (credential_text name)) [
          | inr (e, unnamed) ↦ inr (e, rw (granted, conforms, within, unnamed) refl)
          | inl (credential, named) ↦ inl (record {
            name = name;
            request = request;
            credential = credential;
            authenticated = granted;
            conforms = conforms;
            within_limit = within;
            named = named;
            admits = rw (granted, conforms, within, named) refl;
          })
        ]
      ]
    ]
  ]

-- A link's body is read back from its dump.
pub link_request-dump :
    (body : LinkBody) → is_node body.node ≡ true → link_request (dump_link body) ≡ ok body
unfolding link_request read_mode get
link_request-dump body valid = by_mode body.mode body.node valid
  where
    by_mode :
        (m : Mode) (n : String)
        → is_node n ≡ true
        → link_request (dump_link (record { node = n; mode = m }))
          ≡ ok (record { node = n; mode = m })
    by_mode transceive n v = rw v refl
    by_mode monitor n v = rw v refl

pub announcement_request-dump :
    (kind : AnnouncementKind)
    → (announcement_request (dump_announcement kind) ≡ ok kind)
      × (is_unsupported (get (dump_announcement kind) "kind") ≡ false)
unfolding announcement_request read_announcement is_unsupported get
announcement_request-dump identify = (refl, refl)
announcement_request-dump AnnouncementKind.status = (refl, refl)

ok_request : {a b : Request} → ok a ≡ ok b → a ≡ b
ok_request {a} e = ap value e
  where
    value : Result Request → Request
    value (ok r) = r
    value (err x) = a

pub unlink_built :
    (node : String)
    → is_node node ≡ true
    → command_body unlink_node (("node", node) ∷ []) ≡ ok (format ("ilink 11 " ∷ node ∷ []))
unfolding command_body validate_node get
unlink_built node valid = rw valid refl

pub unlink_all_built : command_body unlink_all [] ≡ ok "ilink 6"
unfolding command_body
unlink_all_built = refl

pub link_built :
    (body : LinkBody)
    → is_node body.node ≡ true
    → command_body link_node (dump_link body)
      ≡ ok (format ("ilink " ∷ ilink_mode body.mode ∷ " " ∷ body.node ∷ []))
unfolding command_body
link_built body valid = rw (link_request-dump body valid) refl

pub announcement_built :
    (kind : AnnouncementKind)
    → command_body announce (dump_announcement kind) ≡ ok (announcement kind)
unfolding command_body
announcement_built kind =
    let (read, supported) = announcement_request-dump kind in rw (read, supported) refl

-- The command of what a schema accepts.
body_built :
    (route : Route) (q : Call) {request : Request}
    → dump route q ≡ ok request
    → (body : String) × (command_body (kind_of route) request ≡ ok body)
unfolding dump
body_built post_link q e = elim (Result-cases (link_request q.body)) [
  | inr (x, failed) ↦ absurd (ground (arith, failed))
  | inl (body, valid) ↦
      let dumped : dump post_link q ≡ ok (dump_link body) = rw valid refl in
      let same = ok_request (sym e ∙ dumped) in
      (_, ap (command_body link_node) same ∙ link_built body (link_request_ok q.body valid))
]
body_built delete_link q e = elim (Bool-cases (is_node q.path_node)) [
  | inr wrong ↦ absurd (ground (arith, wrong))
  | inl valid ↦
      let dumped : dump delete_link q ≡ ok (("node", q.path_node) ∷ []) = rw valid refl in
      let same = ok_request (sym e ∙ dumped) in
      (_, ap (command_body unlink_node) same ∙ unlink_built q.path_node valid)
]
body_built delete_links q e =
    let same = ok_request (sym e) in (_, ap (command_body unlink_all) same ∙ unlink_all_built)
body_built post_announcement q e = elim (Result-cases (announcement_request q.body)) [
  | inr (x, failed) ↦ absurd (ground (arith, failed))
  | inl (kind, valid) ↦
      let dumped : dump post_announcement q ≡ ok (dump_announcement kind) = rw valid refl in
      let same = ok_request (sym e ∙ dumped) in
      (_, ap (command_body announce) same ∙ announcement_built kind)
]

or_refuse_ok :
    (e : Exception) (r : Result Request) {request : Request}
    → or_refuse e r ≡ ok request
    → r ≡ ok request
or_refuse_ok e (ok r) h = h
or_refuse_ok e (err x) h = absurd (ground arith)

-- From a valid node, `command_for` builds a command for every request that the schema of a route
-- accepts.
pub schema-command_for :
    (node : String) (route : Route) (q : Call) {request : Request}
    → is_node node ≡ true
    → schema route q ≡ ok request
    → (command : String) × (command_for node (kind_of route) request ≡ ok command)
unfolding schema command_for validate_node
schema-command_for node route q valid e = elim (Bool-cases (is_idempotency_key q.idempotency_key)) [
  | inr wrong ↦ absurd (ground (arith, wrong))
  | inl fine ↦
      let accepted =
        or_refuse_ok (refuse_schema (named_kind route q)) (dump route q) (rw fine at e) in
      let (body, built) = body_built route q accepted in
      (format ("rpt cmd " ∷ node ∷ " " ∷ body ∷ []), rw (valid, built) refl)
]

length-take : {A : Type 0} (n : ℕ) (xs : List A) → length (take n xs) ≤ n
length-take zero xs = omega arith
length-take (suc n) [] = omega arith
length-take (suc n) (x ∷ xs) = omega (arith, length-take n xs)

on_connection-length :
    (c : Settings) (limit offset : ℕ) (connection : Connection) (p : Platform) {os : List Operation}
    {p' : Platform}
    → call_ledger connection (Methods.list c.env c.node limit offset) p ≡ (ok os, p')
    → length os ≤ limit
unfolding call_ledger Methods.list
on_connection-length c limit offset absent p e = absurd (ground arith)
on_connection-length c limit offset closed p e = absurd (ground arith)
on_connection-length c limit offset opened p {os} e =
    let rows : List Row → List Operation =
      λ all_rows. take limit (drop offset (reverse (documents c.node all_rows))) in
    let read : select c.env rows p.db ≡ (ok os, (select c.env rows p.db).1) =
      λ i. ((e i).0, (select c.env rows p.db).1) in
    subst (λ xs. length xs ≤ limit) (sym (select_value c.env rows p.db read)) (length-take limit _)

raised_bounds :
    (limit : ℕ) (e : Exception)
    → raise_if (not (leb 1 limit && leb limit 500)) e ≡ ok tt
    → limit ≤ 500
raised_bounds limit e h = ground (arith, raise_if-eq-ok _ e h)

-- `GET /operations` returns at most as many operations as its limit, and at most 500.
pub operations_bounds :
    (c : Settings) (key : Option String) (limit offset : ℕ) (p : Platform) {os : List Operation}
    {p' : Platform}
    → operations c key limit offset p ≡ (ok os, p')
    → (length os ≤ limit) × (length os ≤ 500)
unfolding operations on_ledger
operations_bounds c key limit offset p e =
    let (name, granted, e1) = bind_returned (lift (authenticate c.config key observe)) _ p e in
    let (u, within, e2) =
      bind_returned (require (not (leb 1 limit && leb limit 500)) (problem 422 "INVALID_REQUEST")) _
        p e1 in
    let (v, there, e3) = bind_returned require_ledger _ p e2 in
    let most = on_connection-length c limit offset _ _ e3 in
    let bound = raised_bounds limit _ (ap (λ r. r.0) within) in (most, omega (arith, most, bound))

-- The capability `control_enabled` is what the control routes ask of the service, while the ledger
-- is there.
pub control_enabled_iff :
    (p : Platform)
    → is_absent p.ledger ≡ false
    → (control_enabled p ≡ true) ↔ (require_ledger p ≡ (ok tt, p))
unfolding control_enabled require_ledger
control_enabled_iff p there = (λ enabled. ground arith, λ required. ground arith)
