-- ===== src/Observation/Laws.antt =====
-- What a snapshot can be: complete evidence, or none.
use asl3_api.Prelude.{
  String, format, Bool, true, false, ◌&&◌, Option, none, some, List, [], ◌∷◌, Dict, get, ◌≡◌, refl,
  ◌⊎◌, inl, inr, arith, Bool-cases,
}
use asl3_api.Errors.{Exception, value_error, type_error, key_error, Result, ok, err, Result-cases}
use asl3_api.Models.{complete, state_unknown, TrafficState, DirectLink, NodeState, is_node}
use asl3_api.Transport.{Message}
use asl3_api.Observation.Native.{is_subset, Xstat, parse_xstat, parse_sawstat}
use asl3_api.Observation.Snapshot.{
  node_state, unknown_state, unknown, complete_state, direct_links, is_one, is_active, traffic_of,
  combine, caught, parse_snapshot,
}
use asl3_api.Observation.Refusals.{
  is_refusal, parse_xstat-refuses, parse_sawstat-refuses, direct_links-refuses,
}

-- All of the evidence is there, and the traffic is what it says.
pub record IsEvident (s : NodeState) : Type 0 where
  pub rx : Bool
  pub tx : Bool
  pub links : List DirectLink
  pub rx_keyed : s.rx_keyed ≡ some rx
  pub tx_keyed : s.tx_keyed ≡ some tx
  pub direct_links : s.direct_links ≡ some links
  pub state_status : s.state_status ≡ complete
  pub is_complete : s.is_complete ≡ true
  pub traffic_state : s.traffic_state ≡ traffic_of (is_active rx tx links)

-- No part of the evidence is there.
pub record IsUnknown (s : NodeState) : Type 0 where
  pub rx_keyed : s.rx_keyed ≡ none
  pub tx_keyed : s.tx_keyed ≡ none
  pub direct_links : s.direct_links ≡ none
  pub state_status : s.state_status ≡ state_unknown
  pub is_complete : s.is_complete ≡ false
  pub traffic_state : s.traffic_state ≡ TrafficState.unknown

-- A state of the node was returned, complete or unknown.
pub record Observes (node : String) (r : Result NodeState) : Type 0 where
  pub state : NodeState
  pub returned : r ≡ ok state
  pub of_node : state.node ≡ node
  pub evidence : IsEvident state ⊎ IsUnknown state

-- The state that `combine` makes.
abbrev pub built : String → String → String → Xstat → List DirectLink → NodeState
built at node epoch x links =
    complete_state at node epoch (is_one (get x.variables "RPT_RXKEYED"))
      (is_one (get x.variables "RPT_TXKEYED")) links

module _ (at node : String) (valid : is_node node ≡ true) where
  pub unknown_lem :
      (epoch : Option String) (reason : String)
      → (s : NodeState) × (unknown at node epoch reason ≡ ok s) × (s.node ≡ node) × IsUnknown s
  unfolding unknown node_state
  unknown_lem epoch reason = (
    unknown_state at node epoch reason,
    rw valid refl,
    refl,
    record {
      rx_keyed = refl;
      tx_keyed = refl;
      direct_links = refl;
      state_status = refl;
      is_complete = refl;
      traffic_state = refl;
    },
  )

  unknown-Observes :
      (epoch : Option String) (reason : String) → Observes node (unknown at node epoch reason)
  unknown-Observes epoch reason =
      let (s, returned, of_node, u) = unknown_lem epoch reason in
      record { state = s; returned = returned; of_node = of_node; evidence = inr u }

  module _ (epoch : String) (xstat sawstat : Message) where
    -- A `combine` that returned, and the parts that it was made of.
    pub record Combined (s : NodeState) : Type 0 where
      pub xdata : Xstat
      pub saw_keyed : Dict Bool
      pub links : List DirectLink
      pub parsed_xstat : parse_xstat xstat node ≡ ok xdata
      pub parsed_sawstat : parse_sawstat sawstat node ≡ ok saw_keyed
      pub same_names :
          (is_subset xdata.connections saw_keyed && is_subset saw_keyed xdata.connections) ≡ true
      pub linked : direct_links xdata.alinks saw_keyed xdata.connections ≡ ok links
      pub rx_keyed : s.rx_keyed ≡ some (is_one (get xdata.variables "RPT_RXKEYED"))
      pub tx_keyed : s.tx_keyed ≡ some (is_one (get xdata.variables "RPT_TXKEYED"))
      pub direct_links_are : s.direct_links ≡ some links
      pub of_node : s.node ≡ node
      pub evidence : IsEvident s

    pub combine_cases :
        ((s : NodeState) × (combine at node epoch xstat sawstat ≡ ok s) × Combined s)
        ⊎ ((e : Exception) × (combine at node epoch xstat sawstat ≡ err e) × (is_refusal e ≡ true))
    unfolding combine node_state
    combine_cases = elim (Result-cases (parse_xstat xstat node)) [
      | inr (e, failed) ↦
          inr (e, ground (arith, failed), ground (arith, failed, parse_xstat-refuses xstat node))
      | inl (x, got) ↦ elim (Result-cases (parse_sawstat sawstat node)) [
        | inr (e, failed) ↦ inr (
          e,
          ground (arith, got, failed),
          ground (arith, failed, parse_sawstat-refuses sawstat node),
        )
        | inl (saw, heard) ↦
            elim (Bool-cases (is_subset x.connections saw && is_subset saw x.connections)) [
              | inr differ ↦ inr (
                value_error "Direct-link set changed during observation",
                rw (got, heard, differ) refl,
                refl,
              )
              | inl same ↦ elim (Result-cases (direct_links x.alinks saw x.connections)) [
                | inr (e, failed) ↦ inr (
                  e,
                  rw (got, heard, same, failed) refl,
                  ground (arith, failed, direct_links-refuses x.alinks saw x.connections),
                )
                | inl (links, linked) ↦ inl (
                  built at node epoch x links,
                  rw (got, heard, same, linked, valid) refl,
                  record {
                    xdata = x;
                    saw_keyed = saw;
                    links = links;
                    parsed_xstat = got;
                    parsed_sawstat = heard;
                    same_names = same;
                    linked = linked;
                    rx_keyed = refl;
                    tx_keyed = refl;
                    direct_links_are = refl;
                    of_node = refl;
                    evidence = record {
                      rx = is_one (get x.variables "RPT_RXKEYED");
                      tx = is_one (get x.variables "RPT_TXKEYED");
                      links = links;
                      rx_keyed = refl;
                      tx_keyed = refl;
                      direct_links = refl;
                      state_status = refl;
                      is_complete = refl;
                      traffic_state = refl;
                    };
                  },
                )
              ]
            ]
      ]
    ]

  -- For a valid node, `parse_snapshot` returns a state of the node, whatever the responses are: one
  -- with all of the evidence and the traffic that it shows, or one that is unknown and has none.
  pub parse_snapshot-Observes :
      (epoch : String) (xstat sawstat : Message)
      → Observes node (parse_snapshot at node epoch xstat sawstat)
  unfolding parse_snapshot caught
  parse_snapshot-Observes epoch xstat sawstat = elim (combine_cases epoch xstat sawstat) [
    | inl (s, same, c) ↦ record {
      state = s;
      returned = rw same refl;
      of_node = c.of_node;
      evidence = inl c.evidence;
    }
    | inr (e, same, refusal) ↦ rw same (go e refusal)
  ]
    where
      go : (e : Exception) → is_refusal e ≡ true → Observes node (caught at node epoch (err e))
      go (value_error text) h = unknown-Observes (some epoch) text
      go (type_error text) h = unknown-Observes (some epoch) text
      go (key_error key) h = unknown-Observes (some epoch) (format ("'" ∷ key ∷ "'" ∷ []))
      go _ h = absurd (ground arith)
