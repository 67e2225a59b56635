-- ===== src/Config/Valid.antt =====
-- What the rest of the program may rely on in a configuration that `validate` accepts.
use asl3_api.Prelude.{
  ℕ, suc, ◌≤◌, ◌*◌, String, Bool, true, false, not, Option, none, some, List, [], ◌∷◌, ◌++◌, str_eq,
  eq_iff, if◌then◌else◌, All, ◌≡◌, refl, ap, ◌∙◌, arith, inl, inr, ◌⊎◌, Bool-cases,
}
use asl3_api.Errors.{ok, err, >>=-returned}
use asl3_api.Config.{ℤ, pos, negsuc, Value, null, bool, int, float, finite, str, seq, dict}
use asl3_api.Config
use asl3_api.Config.Credentials.{credential_errors}
use asl3_api.Config.Validate.{
  value_text, is_node_text, in_set, report, Check, check_node, check_host, check_newlines,
  is_seconds, check_seconds, check_policy, policy_checks, checks, all_errors, raise_errors,
  validate,
}
use asl3_api.Models.{Kind, link_node, unlink_node, unlink_all, announce, is_node}
use asl3_api.Policy.{PolicyState, on_active, on_unknown, setting}
use asl3_api.Http.Auth.{contains}

append_nil_inv : (xs ys : List String) → xs ++ ys ≡ [] → (xs ≡ []) × (ys ≡ [])
append_nil_inv [] ys e = (refl, e)
append_nil_inv (x ∷ xs) ys e = absurd (ground arith)

ok_inj : {a b : List String} → ok a ≡ ok b → a ≡ b
ok_inj {a} e = ap value e
  where
    value : Check → List String
    value (ok r) = r
    value (err x) = a

no_errors : (cs : List Check) → all_errors cs ≡ ok [] → All (λ (c : Check). c ≡ ok []) cs
unfolding all_errors
no_errors [] h = tt
no_errors (c ∷ cs) h =
    let (errors, found, rest) = >>=-returned c _ h in
    let (later, found_later, joined) = >>=-returned (all_errors cs) _ rest in
    let (first, others) = append_nil_inv errors later (ok_inj joined) in
    (found ∙ ap ok first, no_errors cs (found_later ∙ ap ok others))

raise_errors_nil : (es : List String) → raise_errors es ≡ ok tt → es ≡ []
raise_errors_nil [] h = refl
raise_errors_nil (e ∷ es) h = absurd (ground arith)

unreported : (failed : Bool) (text : String) → report failed text ≡ [] → failed ≡ false
unreported true text h = absurd (ground arith)
unreported false text h = refl

unreported_ok :
    (failed : Bool) (text : String)
    → ◌≡◌ {A = Check} (ok (report failed text)) (ok [])
    → failed ≡ false
unreported_ok failed text h = unreported failed text (ok_inj h)

abbrev pub IsSetting : Value → Type 0
IsSetting v = (v ≡ str "allow") ⊎ (v ≡ str "deny")

in_set-IsSetting : (v : Value) → in_set v ("allow" ∷ "deny" ∷ []) ≡ ok true → IsSetting v
unfolding in_set
in_set-IsSetting (str s) h = elim (Bool-cases (str_eq s "allow")) [
  | inl is_allowed ↦ inl (ap str ((eq_iff s "allow").0 is_allowed))
  | inr other ↦ elim (Bool-cases (str_eq s "deny")) [
    | inl is_denied ↦ inr (ap str ((eq_iff s "deny").0 is_denied))
    | inr neither ↦ absurd (ground (arith, h, other, neither))
  ]
]
in_set-IsSetting _ h = absurd (ground arith)

check_policy_ok :
    (config : Value) (kind : Kind) (state : PolicyState)
    → check_policy config kind state ≡ ok []
    → IsSetting (setting config kind state)
unfolding check_policy
check_policy_ok config kind state h =
    let (known, found, clean) =
      >>=-returned (in_set (setting config kind state) ("allow" ∷ "deny" ∷ [])) _ h in
    let known_true : known ≡ true = ground (arith, unreported_ok (not known) _ clean) in
    in_set-IsSetting (setting config kind state) (found ∙ ap ok known_true)

-- No carriage return and no line feed.
abbrev pub IsUnbroken : Value → Type 0
IsUnbroken v = (contains v "\r" ≡ ok false) × (contains v "\n" ≡ ok false)

check_newlines_ok : (v : Value) → check_newlines v ≡ ok [] → IsUnbroken v
unfolding check_newlines
check_newlines_ok v h =
    let (returns, found, rest) = >>=-returned (contains v "\r") _ h in
    let (feeds, found_feeds, clean) =
      >>=-returned (if returns then ok true else contains v "\n") _ rest in
    by_returns returns feeds found found_feeds (unreported_ok feeds _ clean)
  where
    by_returns :
        (r f : Bool)
        → contains v "\r" ≡ ok r
        → (if r then ok true else contains v "\n") ≡ ok f
        → f ≡ false
        → IsUnbroken v
    by_returns true f found_r found_f clean = absurd (ground (arith, found_f, clean))
    by_returns false f found_r found_f clean = (found_r, found_f ∙ ap ok clean)

-- A number of seconds above 0 and up to 120, whole or not, or true.
abbrev pub IsSeconds : Value → Type 0
IsSeconds v =
    ((n : ℕ) × (v ≡ int (pos n)) × (1 ≤ n) × (n ≤ 120))
    ⊎ (((n : ℕ) × (d : ℕ) × (v ≡ float (finite (pos n) d)) × (1 ≤ n) × (n ≤ 120 * suc d))
        ⊎ (v ≡ bool true))

is_seconds-IsSeconds : (v : Value) → is_seconds v ≡ true → IsSeconds v
is_seconds-IsSeconds (int (pos n)) h = inl (n, refl, ground arith, ground arith)
is_seconds-IsSeconds (float (finite (pos n) d)) h =
    inr (inl (n, d, refl, ground arith, ground arith))
is_seconds-IsSeconds (bool true) h = inr (inr refl)
is_seconds-IsSeconds _ h = absurd (ground arith)

check_seconds_ok :
    (config : Value) (name : String)
    → check_seconds config name ≡ ok []
    → IsSeconds (Config.get config name (int (pos 5)))
unfolding check_seconds
check_seconds_ok config name h =
    is_seconds-IsSeconds (Config.get config name (int (pos 5)))
      (ground (arith, unreported_ok (not (is_seconds (Config.get config name (int (pos 5))))) _ h))

check_node_ok :
    (config : Value)
    → check_node config ≡ ok []
    → (node : String) × (value_text (Config.get config "node.number" (str "")) ≡ some node)
      × (is_node node ≡ true)
unfolding check_node
check_node_ok config h =
    by_text (value_text (Config.get config "node.number" (str ""))) (unreported_ok _ _ h)
  where
    by_text :
        (o : Option String)
        → not (is_node_text o) ≡ false
        → (node : String) × (o ≡ some node) × (is_node node ≡ true)
    by_text none e = absurd (ground arith)
    by_text (some s) e = (s, refl, ground (arith, e))

check_host_ok :
    (config : Value)
    → check_host config ≡ ok []
    → in_set
        (Config.get config "ami.host" (str "127.0.0.1"))
        ("127.0.0.1" ∷ "::1" ∷ "localhost" ∷ [])
      ≡ ok true
unfolding check_host
check_host_ok config h =
    let (local, found, clean) =
      >>=-returned (in_set (Config.get config "ami.host" (str "127.0.0.1")) _) _ h in
    found ∙ ap ok (ground (arith, unreported_ok (not local) _ clean))

-- What a configuration that `validate` accepts has.
pub record IsValid (config : Value) : Type 0 where
  pub node :
      (node : String) × (value_text (Config.get config "node.number" (str "")) ≡ some node)
      × (is_node node ≡ true)
  pub local_host :
      in_set
        (Config.get config "ami.host" (str "127.0.0.1"))
        ("127.0.0.1" ∷ "::1" ∷ "localhost" ∷ [])
      ≡ ok true
  pub credentials : credential_errors config ≡ []
  pub username : IsUnbroken (Config.get config "ami.username" (str "asl3-api"))
  pub password : IsUnbroken (Config.get config "ami.password" (str ""))
  pub ami_seconds : IsSeconds (Config.get config "timeouts.ami_seconds" (int (pos 5)))
  pub observation_seconds :
      IsSeconds (Config.get config "timeouts.observation_seconds" (int (pos 5)))
  pub dispatch_timeout : IsSeconds (Config.get config "operations.dispatch_timeout" (int (pos 5)))
  pub effect_timeout : IsSeconds (Config.get config "operations.effect_timeout" (int (pos 5)))
  pub policy : (kind : Kind) (state : PolicyState) → IsSetting (setting config kind state)

-- A configuration that `validate` accepts has a valid node number, a local host, credentials without
-- an error, a user name and a password without a line break, four timeouts that are each a
-- number above 0 and up to 120, whole or not, or true, and for each kind and each state of the
-- traffic a policy that is "allow" or "deny".
pub validate-IsValid : (config : Value) → validate config ≡ ok tt → IsValid config
unfolding validate
validate-IsValid config h =
    let (errors, found, none_raised) = >>=-returned (all_errors (checks config)) _ h in
    let clean = no_errors (checks config) (found ∙ ap ok (raise_errors_nil errors none_raised)) in
    let last = clean.1.1.1.1.1.1.1.1.1.1.1.1 in
    record {
      node = check_node_ok config clean.0;
      local_host = check_host_ok config clean.1.0;
      credentials = ok_inj clean.1.1.1.1.1.0;
      username = check_newlines_ok _ clean.1.1.1.1.1.1.0;
      password = check_newlines_ok _ clean.1.1.1.1.1.1.1.0;
      ami_seconds = check_seconds_ok config "timeouts.ami_seconds" clean.1.1.1.1.1.1.1.1.0;
      observation_seconds =
          check_seconds_ok config "timeouts.observation_seconds" clean.1.1.1.1.1.1.1.1.1.0;
      dispatch_timeout =
          check_seconds_ok config "operations.dispatch_timeout" clean.1.1.1.1.1.1.1.1.1.1.0;
      effect_timeout =
          check_seconds_ok config "operations.effect_timeout" clean.1.1.1.1.1.1.1.1.1.1.1.0;
      policy = λ kind state. check_policy_ok config kind state (by_kind kind state last);
    }
  where
    by_kind :
        (kind : Kind) (state : PolicyState)
        → All
            (λ (c : Check). c ≡ ok [])
            (policy_checks config link_node
              ++ policy_checks config announce
              ++ policy_checks config unlink_node
              ++ policy_checks config unlink_all)
        → check_policy config kind state ≡ ok []
    by_kind link_node on_active l = l.0
    by_kind link_node on_unknown l = l.1.0
    by_kind announce on_active l = l.1.1.0
    by_kind announce on_unknown l = l.1.1.1.0
    by_kind unlink_node on_active l = l.1.1.1.1.0
    by_kind unlink_node on_unknown l = l.1.1.1.1.1.0
    by_kind unlink_all on_active l = l.1.1.1.1.1.1.0
    by_kind unlink_all on_unknown l = l.1.1.1.1.1.1.1.0
