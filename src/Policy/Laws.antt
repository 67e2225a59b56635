-- ===== src/Policy/Laws.antt =====
-- What the policy lets through.
use asl3_api.Prelude.{
  String, Bool, true, false, ◌||◌, ◌≡◌, refl, ◌↔◌, ◌⊎◌, inl, inr, arith, format, split, eq_iff,
  List, [], ◌∷◌, Bool-cases, ap, if◌then◌else◌,
}
use asl3_api.Errors.{Exception, ok, err, problem}
use asl3_api.Config.{Value, str, dict, Entries, end}
use asl3_api.Config
use asl3_api.Models.{
  Kind, link_node, unlink_node, unlink_all, announce, TrafficState, active, clear, unknown,
  NodeState,
}
use asl3_api.Ledger.Canonical.{kind_text}
use asl3_api.Policy.{
  PolicyState, on_active, on_unknown, setting, is_allow, default_setting, state_text,
  enforce_traffic, enforce,
}

-- The setting that decides for a state of the traffic that is not clear.
abbrev pub deciding : TrafficState → PolicyState
deciding active = on_active
deciding _ = on_unknown

abbrev pub is_clear : TrafficState → Bool
is_clear clear = true
is_clear _ = false

is_allow_iff : (v : Value) → (is_allow v ≡ true) ↔ (v ≡ str "allow")
unfolding is_allow
is_allow_iff (str s) = (λ h. ap str ((eq_iff s "allow").0 h), λ e. (eq_iff s "allow").1 (str_inj e))
  where
    text : Value → String
    text (str t) = t
    text _ = s

    str_inj : str s ≡ str "allow" → s ≡ "allow"
    str_inj e = ap text e
is_allow_iff v = (λ h. cc, λ e. cc)

enforce_traffic_iff :
    (config : Value) (kind : Kind) (traffic : TrafficState)
    → (enforce_traffic config kind traffic ≡ ok tt)
      ↔ ((is_clear traffic ≡ true) ⊎ (setting config kind (deciding traffic) ≡ str "allow"))
unfolding enforce_traffic
enforce_traffic_iff config kind clear = (λ h. inl refl, λ h. refl)
enforce_traffic_iff config kind active =
    let allowed = is_allow_iff (setting config kind on_active) in
    elim (Bool-cases (is_allow (setting config kind on_active))) [
      | inl t ↦ (λ h. inr (allowed.0 t), λ h. rw t)
      | inr f ↦ (λ h. absurd (ground (arith, f)), λ h. absurd (ground (arith, f, allowed.1)))
    ]
enforce_traffic_iff config kind TrafficState.unknown =
    let allowed = is_allow_iff (setting config kind on_unknown) in
    elim (Bool-cases (is_allow (setting config kind on_unknown))) [
      | inl t ↦ (λ h. inr (allowed.0 t), λ h. rw t)
      | inr f ↦ (λ h. absurd (ground (arith, f)), λ h. absurd (ground (arith, f, allowed.1)))
    ]

-- The policy lets an operation through exactly when the traffic is clear, or when the setting of
-- the observed state is the text "allow".
pub enforce_iff :
    (config : Value) (kind : Kind) (state : NodeState)
    → (enforce config kind state ≡ ok tt) ↔ (
        (is_clear state.traffic_state ≡ true)
        ⊎ (setting config kind (deciding state.traffic_state) ≡ str "allow"))
unfolding enforce
enforce_iff config kind state = enforce_traffic_iff config kind state.traffic_state

abbrev pub refusal : TrafficState → Exception
refusal active = problem 409 "POLICY_DENIED_ACTIVE_TRAFFIC"
refusal _ = problem 409 "POLICY_DENIED_STATE_UNKNOWN"

abbrev pub only_removes : Kind → Bool
only_removes unlink_node = true
only_removes unlink_all = true
only_removes _ = false

no_policy :
    (d : Entries) (k : String) (ks : List String) (s : String)
    → ((default : Value) → Config.get_entry d "policy" default ≡ default)
    → Config.get_path ("policy" ∷ k ∷ ks) (dict d) (str s) ≡ str s
unfolding Config.get_path
no_policy d k ks s h = ap (λ v. Config.get_path (k ∷ ks) v (str s)) (h (str s))

key_parts :
    (kind : Kind) (state : PolicyState)
    → split b'.' (format ("policy.traffic." ∷ kind_text kind ∷ "." ∷ state_text state ∷ []))
      ≡ "policy" ∷ "traffic" ∷ kind_text kind ∷ state_text state ∷ []
unfolding split format
key_parts link_node on_active = refl
key_parts link_node on_unknown = refl
key_parts unlink_node on_active = refl
key_parts unlink_node on_unknown = refl
key_parts unlink_all on_active = refl
key_parts unlink_all on_unknown = refl
key_parts announce on_active = refl
key_parts announce on_unknown = refl

setting_default :
    (d : Entries) (kind : Kind) (state : PolicyState)
    → ((default : Value) → Config.get_entry d "policy" default ≡ default)
    → setting (dict d) kind state ≡ str (default_setting kind)
unfolding setting Config.get
setting_default d kind state h =
    rw (key_parts kind state)
      (no_policy d "traffic" (kind_text kind ∷ state_text state ∷ []) (default_setting kind) h)

-- A configuration with no "policy" entry lets links and announcements through on clear traffic
-- alone, with a 409 otherwise, and lets unlinks through always.
pub enforce_default :
    (d : Entries) (kind : Kind) (state : NodeState)
    → ((default : Value) → Config.get_entry d "policy" default ≡ default)
    → enforce (dict d) kind state ≡ (
        if is_clear state.traffic_state || only_removes kind
        then ok tt
        else err (refusal state.traffic_state))
unfolding enforce enforce_traffic is_allow
enforce_default d kind state h = by_traffic kind state.traffic_state
  where
    by_traffic :
        (k : Kind) (t : TrafficState)
        → enforce_traffic (dict d) k t
          ≡ (if is_clear t || only_removes k then ok tt else err (refusal t))
    by_traffic k clear = refl
    by_traffic link_node active = rw (setting_default d link_node on_active h) refl
    by_traffic unlink_node active = rw (setting_default d unlink_node on_active h) refl
    by_traffic unlink_all active = rw (setting_default d unlink_all on_active h) refl
    by_traffic announce active = rw (setting_default d announce on_active h) refl
    by_traffic link_node unknown = rw (setting_default d link_node on_unknown h) refl
    by_traffic unlink_node unknown = rw (setting_default d unlink_node on_unknown h) refl
    by_traffic unlink_all unknown = rw (setting_default d unlink_all on_unknown h) refl
    by_traffic announce unknown = rw (setting_default d announce on_unknown h) refl
