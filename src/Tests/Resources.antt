-- ===== src/Tests/Resources.antt =====
-- The answers of the read-only routes, and the code of a problem.
use asl3_api.Prelude.{
  ℕ, ◌++◌, all, map, false, List, String, Option, true, false, none, some, [], ◌∷◌, Dict, all_chars,
  codes, All, ◌≡◌, ◌↔◌, ◌⊎◌, refl,
}
use asl3_api.Errors.{ok}
use asl3_api.Models.{link_node, announce, DirectLink}
use asl3_api.Models.Command.{command_for}
use asl3_api.Config.{bool, str}
use asl3_api.Policy.{enforce}
use asl3_api.Policy.Laws.{is_clear, deciding}
use asl3_api.Software.{evidence}
use asl3_api.Service.{require_ledger}
use asl3_api.Directory.{init}
use asl3_api.Http.Auth.{contains}
use asl3_api.Http.Advertised.{said, said_policy, capabilities_iff}
use asl3_api.Http.Problems.{urn, problem_response, title_from}
use asl3_api.Http.Named as Named
use asl3_api.Http.Named.{is_type_char, is_title, capital_of, problem_response-named}
use asl3_api.Agent.Health.{listed_nodes}
use asl3_api.Agent.Fields.{HasFields, listed_nodes-HasFields}
use asl3_api.Tests.Record.{Reach-started}
use asl3_api.Tests.Service.{settings, started, idle_state}
use asl3_api.Tests.Models.{is_node_2000}
use asl3_api.Tests.Events.{link}

capabilities_iff_example :
    ((said settings started (evidence none none).0 (evidence none none).1 "features.control_enabled"
        ≡ bool true)
      ↔ (require_ledger started ≡ (ok tt, started)))
    × ((contains
            (said settings started
              (evidence none none).0
              (evidence none none).1
              "features.announcements")
            "time"
          ≡ ok true)
        ↔ ((command : String) × (command_for "2000" announce (("kind", "time") ∷ []) ≡ ok command)))
    × ((enforce settings.config link_node idle_state ≡ ok tt) ↔ (
        (is_clear idle_state.traffic_state ≡ true)
        ⊎ (said_policy settings started
              (evidence none none).0
              (evidence none none).1
              link_node
              (deciding idle_state.traffic_state)
            ≡ str "allow")))
capabilities_iff_example =
    capabilities_iff settings started (evidence none none).0 (evidence none none).1 "time" link_node
      idle_state is_node_2000 Reach-started

conflict_code : all_chars Named.is_code_char "IDEMPOTENCY_CONFLICT" ≡ true
unfolding all_chars
conflict_code = refl

title_test : title_from false "IDEMPOTENCY_CONFLICT" ≡ codes "Idempotency Conflict"
unfolding title_from
title_test = refl

problem_response-named_example :
    ((tail : List ℕ) × ((problem_response "/v1/links" 409 "IDEMPOTENCY_CONFLICT" "").type_codes
        ≡ urn ++ tail)
      × (all is_type_char tail ≡ true)
      × (map capital_of tail ≡ codes "IDEMPOTENCY_CONFLICT"))
    × (is_title false (problem_response "/v1/links" 409 "IDEMPOTENCY_CONFLICT" "").title_codes
        ≡ true)
    × (map capital_of (problem_response "/v1/links" 409 "IDEMPOTENCY_CONFLICT" "").title_codes
        ≡ codes "IDEMPOTENCY_CONFLICT")
problem_response-named_example =
    problem_response-named "/v1/links" 409 "IDEMPOTENCY_CONFLICT" "" conflict_code

abbrev node_fields : DirectLink → Dict (Option String)
node_fields l = ("node", some l.node) ∷ ("info", some "") ∷ []

listed_nodes-HasFields_example : All HasFields (listed_nodes node_fields true init (link ∷ []))
listed_nodes-HasFields_example = listed_nodes-HasFields node_fields true init (link ∷ [])
