-- ===== src/Tests/Config.antt =====
-- Two credentials that are accepted.
use asl3_api.Prelude.{[], split, format, show, all_chars, count, ◌≡◌, refl}
use asl3_api.Config.{
  Value, int, float, finite, pos, str, seq, dict, Items, nil, cons, Entries, end, entry, get_entry,
  get_path,
}
use asl3_api.Config as Config
use asl3_api.Errors.{ok}
use asl3_api.Models.{is_node}
use asl3_api.Policy.{setting}
use asl3_api.Http.Auth.{contains}
use asl3_api.Transport.{is_infix, starts}
use asl3_api.Config.Validate.{
  validate, all_errors, check_node, check_host, check_callsign, check_password, check_key,
  check_newlines, check_seconds, check_policy, in_set,
}
use asl3_api.Config.Valid.{IsValid, validate-IsValid}
use asl3_api.Config.Credentials.{
  credential, check_entry, entry_errors, entries_errors, credential_errors, AreDistinct,
  credential_errors_nil,
}

abbrev pub remote : Value
remote = dict (
    entry "name" (str "remote") (
      entry "key" (str "k1")
        (entry "authority" (seq (cons (str "observe") (cons (str "control") nil))) end)))

abbrev pub viewer : Value
viewer = dict (
    entry "name" (str "viewer")
      (entry "key" (str "k2") (entry "authority" (seq (cons (str "observe") nil)) end)))

abbrev pub two_credentials : Value
two_credentials =
    dict (entry "api" (dict (entry "credentials" (seq (cons remote (cons viewer nil))) end)) end)

pub credentials_accepted : credential_errors two_credentials ≡ []
unfolding credential_errors entries_errors entry_errors check_entry credential Config.get get_path
    get_entry split
credentials_accepted = refl

credential_errors_nil_example :
    (entries : Items) × (Config.get two_credentials "api.credentials" (seq nil) ≡ seq entries)
    × AreDistinct entries [] []
credential_errors_nil_example = credential_errors_nil two_credentials credentials_accepted

-- A configuration with what `validate` asks for, a policy for links and an effect timeout of 0.5.
abbrev full : Value
full = dict (
    entry "node" (dict (entry "number" (int (pos 2000)) (entry "callsign" (str "W1AW") end))) (
      entry "ami" (dict (entry "password" (str "secret") end)) (
        entry "api" (dict (entry "credentials" (seq (cons remote nil)) end)) (
          entry "policy"
            (dict (
              entry "traffic"
                (dict (entry "link_node" (dict (entry "active" (str "allow") end)) end)) end))
            (entry "operations" (dict (entry "effect_timeout" (float (finite (pos 1) 1)) end))
              end)))))

full_validates : validate full ≡ ok tt
unfolding validate all_errors check_node check_host check_callsign check_password check_key
    check_newlines check_seconds check_policy in_set contains setting credential_errors
    entries_errors entry_errors check_entry credential Config.get get_path get_entry split format
    show is_infix starts is_node all_chars count
full_validates = refl

validate-IsValid_example : IsValid full
validate-IsValid_example = validate-IsValid full full_validates
