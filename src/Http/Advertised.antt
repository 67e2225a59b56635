-- ===== src/Http/Advertised.antt =====
-- What GET /capabilities says, against what the service does.
use asl3_api.Prelude.{
  String, Bool, true, List, [], ◌∷◌, any, eq_iff, get, format, str_eq, split, ◌≡◌, ◌↔◌, ◌⊎◌, refl,
  arith, ap, Bool-cases, inl, inr,
}
use asl3_api.Errors.{ok}
use asl3_api.Models.{announce, is_node}
use asl3_api.Models.Command.{
  validate_node, command_body, command_for, is_unsupported, announcement_request, read_announcement,
}
use asl3_api.Models.{NodeState, Kind, link_node, unlink_node, unlink_all}
use asl3_api.Config.{Value, null, bool, str, seq}
use asl3_api.Config as Config
use asl3_api.Ledger.Canonical.{kind_text}
use asl3_api.Policy.{PolicyState, on_active, on_unknown, state_text, setting, enforce}
use asl3_api.Policy.Laws.{is_clear, deciding, enforce_iff}
use asl3_api.Software as Software
use asl3_api.Service.{Platform, Settings, is_absent, require_ledger}
use asl3_api.Service.Reach.{Reach, init}
use asl3_api.Service.Reach.Opened.{Reach-OpenIfHeld}
use asl3_api.Http.Auth.{contains, has_text}
use asl3_api.Http.Routes.{control_enabled}
use asl3_api.Http.Guarded.{control_enabled_iff}
use asl3_api.Http.Resources.{texts, kind_policy, characteristics, features, capabilities_of}
use asl3_api.Http.Problems.{supported_announcements}

-- The kinds of announcement that the capabilities list are the ones for which `command_for` builds a
-- command, from a valid node.
command_for_iff :
    (node k : String)
    → is_node node ≡ true
    → (any (str_eq k) supported_announcements ≡ true)
      ↔ ((command : String) × (command_for node announce (("kind", k) ∷ []) ≡ ok command))
unfolding command_for command_body validate_node is_unsupported announcement_request
    read_announcement get
command_for_iff node k v = (build, λ b. listed b.0 b.1)
  where
    build :
        any (str_eq k) supported_announcements ≡ true
        → (command : String) × (command_for node announce (("kind", k) ∷ []) ≡ ok command)
    build h = elim (Bool-cases (str_eq k "identify")) [
      | inl t ↦ (format ("rpt cmd " ∷ node ∷ " " ∷ "status 1" ∷ []), ground (arith, v, t))
      | inr f ↦ (format ("rpt cmd " ∷ node ∷ " " ∷ "ilink 5" ∷ []), ground (arith, v, f, h))
    ]

    listed :
        (command : String)
        → command_for node announce (("kind", k) ∷ []) ≡ ok command
        → any (str_eq k) supported_announcements ≡ true
    listed command e = ground (arith, v)

has_text-texts : (ts : List String) (k : String) → has_text (texts ts) k ≡ any (str_eq k) ts
has_text-texts [] k = refl
has_text-texts (t ∷ ts) k = ground (arith, has_text-texts ts k, eq_iff t k, eq_iff k t)

ok_true : (a b : Bool) → a ≡ b → (ok a ≡ ok true) ↔ (b ≡ true)
ok_true a b e = (λ h. ground arith, λ h. ground arith)

bool_true : (a : Bool) → (bool a ≡ bool true) ↔ (a ≡ true)
bool_true a = (λ h. ground arith, λ h. ground arith)

module _ (c : Settings) (p : Platform) (asterisk app_rpt : Software.Entry) where
  -- A field of the answer of `GET /capabilities`.
  abbrev pub said : String → Value
  said key = Config.get (capabilities_of c p asterisk app_rpt) key null

  said-announcements : said "features.announcements" ≡ seq (texts supported_announcements)
  unfolding capabilities_of features Config.get Config.get_path Config.get_entry split
  said-announcements = refl

  said-control : said "features.control_enabled" ≡ bool (control_enabled p)
  unfolding capabilities_of features Config.get Config.get_path Config.get_entry split
  said-control = refl

  abbrev pub said_policy : Kind → PolicyState → Value
  said_policy kind state =
      said (format ("traffic_policy." ∷ kind_text kind ∷ "." ∷ state_text state ∷ []))

  said-policy :
      (kind : Kind) (state : PolicyState) → said_policy kind state ≡ setting c.config kind state
  unfolding capabilities_of features characteristics kind_policy Config.get Config.get_path
      Config.get_entry split format
  said-policy link_node on_active = refl
  said-policy link_node on_unknown = refl
  said-policy announce on_active = refl
  said-policy announce on_unknown = refl
  said-policy unlink_node on_active = refl
  said-policy unlink_node on_unknown = refl
  said-policy unlink_all on_active = refl
  said-policy unlink_all on_unknown = refl

  announced_iff :
      (k : String)
      → is_node c.node ≡ true
      → (contains (said "features.announcements") k ≡ ok true)
        ↔ ((command : String) × (command_for c.node announce (("kind", k) ∷ []) ≡ ok command))
  unfolding contains
  announced_iff k v = rw said-announcements (
      let inner =
        ok_true (has_text (texts supported_announcements) k) _
          (has_text-texts supported_announcements k) in
      let built = command_for_iff c.node k v in
      (λ h. built.0 (inner.0 h), λ b. inner.1 (built.1 b)))

  enabled_iff :
      Reach c init p
      → (said "features.control_enabled" ≡ bool true) ↔ (require_ledger p ≡ (ok tt, p))
  enabled_iff r = rw said-control (
      let inner = bool_true (control_enabled p) in
      let enabled = reached_iff r in (λ h. enabled.0 (inner.0 h), λ q. inner.1 (enabled.1 q)))
    where
      reached_iff : Reach c init p → (control_enabled p ≡ true) ↔ (require_ledger p ≡ (ok tt, p))
      reached_iff r = elim (Bool-cases p.owner_held) [
        | inl held ↦ control_enabled_iff p (ap is_absent (Reach-OpenIfHeld c r held))
        | inr free ↦
            unfold control_enabled require_ledger in
            (
              (λ enabled. absurd (ground (arith, free))),
              (λ required. absurd (ground (arith, free))),
            )
      ]

  -- In every run, with a valid node, `GET /capabilities` is true to the service: it says that control is
  -- enabled exactly when a control request passes `require_ledger`, it lists exactly the announcements
  -- for which `command_for` builds a command, and the policy allows a kind exactly on clear traffic or
  -- where the answer's traffic policy says "allow" for the state of the traffic.
  pub capabilities_iff :
      (k : String) (kind : Kind) (before : NodeState)
      → is_node c.node ≡ true
      → Reach c init p
      → ((said "features.control_enabled" ≡ bool true) ↔ (require_ledger p ≡ (ok tt, p)))
        × ((contains (said "features.announcements") k ≡ ok true)
            ↔ ((command : String) × (command_for c.node announce (("kind", k) ∷ []) ≡ ok command)))
        × ((enforce c.config kind before ≡ ok tt) ↔ (
            (is_clear before.traffic_state ≡ true)
            ⊎ (said_policy kind (deciding before.traffic_state) ≡ str "allow")))
  capabilities_iff k kind before v r = (
    enabled_iff r,
    announced_iff k v,
    rw (said-policy kind (deciding before.traffic_state)) (enforce_iff c.config kind before),
  )
