-- ===== src/Agent/Aliases.antt =====
-- The old routes against those of /v1.
use asl3_api.Prelude.{
  ℕ, get, subst, some_inj, String, Bool, true, false, not, Option, none, some, [], ◌∷◌, ◌≡◌, refl,
  sym, ◌∙◌, arith, inl, inr, Bool-cases,
}
use asl3_api.Errors.{Exception, problem, validation_error, Result, ok, err, Result-cases}
use asl3_api.Config.{Value}
use asl3_api.Effects.{Effect, lift, require, ◌>>◌}
use asl3_api.Models.{Request, Operation, is_node}
use asl3_api.Models.Command.{Mode, AnnouncementKind, identify}
use asl3_api.Service.{Platform, Settings}
use asl3_api.Http.Auth.{control, authenticate}
use asl3_api.Http.Routes.{
  Call, Route, post_link, delete_link, delete_links, post_announcement, dump, schema, dump_link,
  dump_announcement, is_idempotency_key, refuse_schema, control_route, kind_of,
}
use asl3_api.Http.Guarded.{link_request-dump}
use asl3_api.Agent.Routes.{
  verify_api_key, LegacyRoute, connect, disconnect, disconnect_all, cop_identify, cop_status,
  cop_time, cop_version, dtmf, macro, Caller, validates, legacy_operation, handle, legacy_route,
  connect_mode,
}

module _ (key : String) (idempotency_key : Option String) where
  -- A caller within the rate limit.
  abbrev pub caller : Caller
  caller = record { api_key = some key; idempotency_key = idempotency_key; limited = false }

  abbrev pub call : String → Request → Call
  call path_node body = record {
    api_key = some key;
    idempotency_key = idempotency_key;
    limited = false;
    path_node = path_node;
    body = body;
  }

  -- The route of /v1 that an old route is an alias of, with the path and the body of its call.
  abbrev pub v1_of : LegacyRoute → Option (Route × Call)
  v1_of (connect node monitor_only) =
      some
        (post_link, call "" (dump_link (record { node = node; mode = connect_mode monitor_only })))
  v1_of (disconnect node) = some (delete_link, call node [])
  v1_of disconnect_all = some (delete_links, call "" [])
  v1_of cop_identify = some (post_announcement, call "" (dump_announcement identify))
  v1_of cop_status = some (post_announcement, call "" (dump_announcement AnnouncementKind.status))
  v1_of _ = none

  -- What the schema of /v1 makes of the call of an alias.
  abbrev Reads : Route → Call → Request → Type 0
  Reads v1 q request =
      (is_idempotency_key idempotency_key ≡ true → schema v1 q ≡ ok request)
      × (is_idempotency_key idempotency_key ≡ false
          → schema v1 q ≡ err (problem 422 "INVALID_REQUEST"))

  module _ (c : Settings) (p : Platform) where
    same_operation :
        (v1 : Route) (path : String) (body request : Request)
        → Reads v1 (call path body) request
        → (name : Value) → authenticate c.config (some key) control ≡ ok name
        → control_route c v1 (call path body) p ≡ legacy_operation c (kind_of v1) request caller p
    unfolding control_route legacy_operation
    same_operation v1 path body request reads name granted =
        elim (Bool-cases (is_idempotency_key idempotency_key)) [
          | inl fine ↦ rw (granted, reads.0 fine, fine) refl
          | inr wrong ↦ rw (granted, reads.1 wrong, wrong) refl
        ]

    -- With the key refused, both raise the same; otherwise the old route does its operation.
    alias :
        (is_decimal : ℕ → Bool) (route : LegacyRoute) (v1 : Route) (path : String)
        (body request : Request)
        → validates is_decimal route ≡ true
        → Reads v1 (call path body) request
        → handle c route caller p ≡ legacy_operation c (kind_of v1) request caller p
        → legacy_route is_decimal c route caller p ≡ control_route c v1 (call path body) p
    unfolding legacy_route control_route verify_api_key
    alias is_decimal route v1 path body request valid reads same =
        elim (Result-cases (authenticate c.config (some key) control)) [
          | inl (name, granted) ↦
              rw (granted, valid)
                (same
                  ∙ sym (same_operation v1 path body request reads name granted)
                  ∙ rw granted refl)
          | inr (e, denied) ↦ rw denied refl
        ]

  link-Reads :
      (node : String) (mode : Mode)
      → is_node node ≡ true
      → Reads post_link
          (call "" (dump_link (record { node = node; mode = mode })))
          (dump_link (record { node = node; mode = mode }))
  unfolding schema dump refuse_schema get
  link-Reads node mode valid = (
    λ fine. rw (fine, link_request-dump (record { node = node; mode = mode }) valid) refl,
    λ wrong. rw wrong refl,
  )

  unlink-Reads :
      (node : String) → is_node node ≡ true → Reads delete_link (call node []) (("node", node) ∷ [])
  unfolding schema dump refuse_schema
  unlink-Reads node valid = (λ fine. rw (fine, valid) refl, λ wrong. rw wrong refl)

  unlink_all-Reads : Reads delete_links (call "" []) []
  unfolding schema dump refuse_schema
  unlink_all-Reads = (λ fine. rw fine refl, λ wrong. rw wrong refl)

  announce-Reads :
      (kind : AnnouncementKind)
      → Reads post_announcement (call "" (dump_announcement kind)) (dump_announcement kind)
  unfolding schema dump refuse_schema get
  announce-Reads identify = (λ fine. rw fine refl, λ wrong. rw wrong refl)
  announce-Reads AnnouncementKind.status = (λ fine. rw fine refl, λ wrong. rw wrong refl)

  -- An old control route, whose fields are valid, does what the route of /v1 does with the same
  -- fields, key and Idempotency-Key: the same answer or problem, and the same change of the service.
  -- The caller has a key and is within the rate limit.
  pub legacy_route-alias :
      (is_decimal : ℕ → Bool) (c : Settings) (route : LegacyRoute) (p : Platform) {v1 : Route}
      {q : Call}
      → v1_of route ≡ some (v1, q)
      → validates is_decimal route ≡ true
      → legacy_route is_decimal c route caller p ≡ control_route c v1 q p
  unfolding handle validates
  legacy_route-alias is_decimal c route p {v1} {q} e valid = by_route route e valid
    where
      moved :
          (r : LegacyRoute) (w : Route) (k : Call)
          → legacy_route is_decimal c r caller p ≡ control_route c w k p
          → ◌≡◌ {A = Option (Route × Call)} (some (w, k)) (some (v1, q))
          → legacy_route is_decimal c r caller p ≡ control_route c v1 q p
      moved r w k same to =
          subst
            (λ (t : Route × Call). legacy_route is_decimal c r caller p ≡ control_route c t.0 t.1 p)
            (some_inj to) same

      by_route :
          (r : LegacyRoute)
          → v1_of r ≡ some (v1, q)
          → validates is_decimal r ≡ true
          → legacy_route is_decimal c r caller p ≡ control_route c v1 q p
      by_route (connect n m) g v =
          moved (connect n m) _ _
            (alias c p is_decimal (connect n m) _ _ _ _ v (link-Reads n (connect_mode m) v) refl) g
      by_route (disconnect n) g v =
          moved (disconnect n) _ _
            (alias c p is_decimal (disconnect n) _ _ _ _ v (unlink-Reads n v) refl) g
      by_route disconnect_all g v =
          moved disconnect_all _ _
            (alias c p is_decimal disconnect_all _ _ _ _ v unlink_all-Reads refl) g
      by_route cop_identify g v =
          moved cop_identify _ _
            (alias c p is_decimal cop_identify _ _ _ _ v (announce-Reads identify) refl) g
      by_route cop_status g v =
          moved cop_status _ _
            (alias c p is_decimal cop_status _ _ _ _ v (announce-Reads AnnouncementKind.status)
              refl)
            g
      by_route cop_time g v = absurd (ground arith)
      by_route cop_version g v = absurd (ground arith)
      by_route (dtmf s) g v = absurd (ground arith)
      by_route (macro s) g v = absurd (ground arith)

-- A route whose capability was withdrawn.
abbrev pub is_withdrawn_route : LegacyRoute → Bool
is_withdrawn_route cop_time = true
is_withdrawn_route cop_version = true
is_withdrawn_route (dtmf sequence) = true
is_withdrawn_route (macro number) = true
is_withdrawn_route _ = false

-- A sequence whose last part raises, and changes nothing.
Raises : Effect Platform Operation → Platform → Type 0
Raises m p = (e : Exception) × (m p ≡ (err e, p))

after_check :
    (failed : Bool) (x : Exception) (m : Effect Platform Operation) (p : Platform)
    → Raises m p
    → Raises (require failed x >> m) p
unfolding Raises
after_check true x m p r = (x, refl)
after_check false x m p r = r

after_result :
    {A : Type 0} (result : Result A) (m : Effect Platform Operation) (p : Platform)
    → Raises m p
    → Raises (lift result >> m) p
unfolding Raises
after_result (ok a) m p r = r
after_result (err e) m p r = (e, refl)

-- A withdrawn route raises for every caller, and leaves the service as it is.
pub withdrawn-refused :
    (is_decimal : ℕ → Bool) (c : Settings) (route : LegacyRoute) (who : Caller) (p : Platform)
    → is_withdrawn_route route ≡ true
    → (e : Exception) × (legacy_route is_decimal c route who p ≡ (err e, p))
unfolding legacy_route handle Raises
withdrawn-refused is_decimal c route who p w =
    after_result (verify_api_key c.config "POST" who.api_key) _ p (
      after_check (not (validates is_decimal route)) validation_error _ p (
        after_check who.limited (problem 429 "rate limit exceeded") (handle c route who) p
          (raises route w)))
  where
    raises : (r : LegacyRoute) → is_withdrawn_route r ≡ true → Raises (handle c r who) p
    raises cop_time t = (_, refl)
    raises cop_version t = (_, refl)
    raises (dtmf s) t = (_, refl)
    raises (macro s) t = (_, refl)
    raises (connect n m) t = absurd (ground arith)
    raises (disconnect n) t = absurd (ground arith)
    raises disconnect_all t = absurd (ground arith)
    raises cop_identify t = absurd (ground arith)
    raises cop_status t = absurd (ground arith)
