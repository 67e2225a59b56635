-- ===== src/Service/Status.antt =====
-- `effect_status` of vnext/service.py: an operation against an observed state.
use asl3_api.Prelude.{
  String, Bool, true, false, not, ◌&&◌, Option, none, some, List, [], ◌∷◌, all, code, all_chars,
  is_digit, get, str_eq, ◌==◌, if◌then◌else◌,
}
use asl3_api.Errors.{Result, ok, err, key_error}
use asl3_api.Models.{
  Kind, link_node, unlink_node, unlink_all, announce, LinkMode, letter_t, letter_r,
  ConnectionStatus, established, connecting, DirectLink, NodeState, Request, Operation,
  EffectStatus, observed_satisfied, observed_partial, observed_unsatisfied, not_applicable,
}

unfoldable pub ascii_numeric_link : String → Bool
ascii_numeric_link String.[] = false
ascii_numeric_link (String.◌∷◌ c s) =
    not (code c == b'0') && (is_digit (code c) && all_chars is_digit s)

-- `==` on texts that may be `None`.
abbrev pub same_text : Option String → Option String → Bool
same_text none none = true
same_text (some s) (some t) = str_eq s t
same_text _ _ = false

abbrev is_t : LinkMode → Bool
is_t letter_t = true
is_t _ = false

abbrev is_r : LinkMode → Bool
is_r letter_r = true
is_r _ = false

abbrev is_established : ConnectionStatus → Bool
is_established established = true
is_established connecting = false

-- `match.mode == ("R" if mode == "monitor" else "T") and match.connection_status == "ESTABLISHED"`
unfoldable pub link_holds : String → DirectLink → Bool
link_holds mode link =
    (if str_eq mode "monitor" then is_r link.mode else is_t link.mode)
    && is_established link.connection_status

-- `next((link for link in links if link.allstar_node == target), None)`
unfoldable pub find_link : Option String → List DirectLink → Option DirectLink
find_link target [] = none
find_link target (link ∷ links) =
    if same_text link.allstar_node target then some link else find_link target links

abbrev pub satisfied : Bool → EffectStatus
satisfied true = observed_satisfied
satisfied false = observed_unsatisfied

-- The rest of the branch of `link_node`, for the link that was found and `request["mode"]`.
unfoldable pub link_effect : Option DirectLink → Option String → Result EffectStatus
unfolding link_holds
link_effect none mode = ok observed_unsatisfied
link_effect (some link) none = err (key_error "mode")
link_effect (some link) (some mode) =
    ok (if link_holds mode link then observed_satisfied else observed_partial)

unfoldable pub effect_of : Kind → Request → List DirectLink → Result EffectStatus
unfolding ascii_numeric_link find_link link_effect
effect_of unlink_node request links =
    ok (satisfied (all (λ link. not (same_text link.allstar_node (get request "node"))) links))
effect_of unlink_all request links =
    ok (satisfied (all (λ link. not (ascii_numeric_link link.node)) links))
effect_of link_node request links =
    link_effect (find_link (get request "node") links) (get request "mode")
effect_of announce request links = ok not_applicable

-- `state.direct_links or []`
abbrev pub links_of : Option (List DirectLink) → List DirectLink
links_of none = []
links_of (some links) = links

unfoldable pub effect_status : Operation → NodeState → Result EffectStatus
unfolding effect_of
effect_status operation state =
    if not state.is_complete
    then ok EffectStatus.unknown
    else effect_of operation.kind operation.request (links_of state.direct_links)
