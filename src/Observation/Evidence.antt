-- ===== src/Observation/Evidence.antt =====
-- The links of a snapshot against the two samples, and the generation of `Observer`.
use asl3_api.Prelude.{
  ℕ, String, Bool, true, false, ◌&&◌, none, some, List, [], ◌∷◌, map, All, Dict, get, if◌then◌else◌,
  ◌==◌, ◌≡◌, refl, sym, subst, ap, ◌∙◌, inl, inr, arith, Bool-cases, Option-cases,
}
use asl3_api.Errors.{Exception, ok, err, >>=-returned, ◌>>=◌}
use asl3_api.Models.{complete, state_unknown, ConnectionStatus, DirectLink, NodeState, is_node}
use asl3_api.Models.Command.{validate_node}
use asl3_api.Transport.{Message}
use asl3_api.Observation.Alinks.{Alink}
use asl3_api.Observation.Native.{is_subset, Xstat, parse_xstat, parse_sawstat}
use asl3_api.Observation.Snapshot.{
  node_state, unknown, mode_of, is_contradicted, link_of, direct_link, direct_links, parse_snapshot,
  caught, is_caught, Observed, snapshot,
}
use asl3_api.Observation.Laws.{
  IsUnknown, Observes, unknown_lem, combine_cases, parse_snapshot-Observes,
}

ok_inj {ℓ} : {A : Type ℓ} {a b : A} → ok a ≡ ok b → a ≡ b
ok_inj e = ground arith

abbrev pub is_ok : Observed → Bool
is_ok (ok sample) = true
is_ok (err e) = false

module _ (alinks : Dict Alink) (saw_keyed : Dict Bool) where
  -- What the samples say of a link.
  pub record IsSampled (link : DirectLink) : Type 0 where
    pub keyed : get saw_keyed link.node ≡ some link.keyed
    pub mode : link.mode ≡ mode_of (get alinks link.node)
    pub agrees : is_contradicted (get alinks link.node) link.keyed ≡ false
    pub allstar : link.allstar_node ≡ (if is_node link.node then some link.node else none)

  sampled :
      (name : String) (status : ConnectionStatus) (keyed : Bool)
      → get saw_keyed name ≡ some keyed
      → is_contradicted (get alinks name) keyed ≡ false
      → IsSampled (link_of name status keyed (get alinks name))
  unfolding link_of validate_node
  sampled name status keyed found agrees = record {
    keyed = found;
    mode = refl;
    agrees = agrees;
    allstar = ground arith;
  }

  abbrev pub pair_of : DirectLink → String × ConnectionStatus
  pair_of link = (link.node, link.connection_status)

  direct_link_ok :
      (name : String) (status : ConnectionStatus) {link : DirectLink}
      → direct_link alinks saw_keyed (name, status) ≡ ok link
      → (pair_of link ≡ (name, status)) × IsSampled link
  unfolding direct_link link_of
  direct_link_ok name status {link} e = elim (Option-cases (get saw_keyed name)) [
    | inl missing ↦ absurd (ground (arith, missing))
    | inr (keyed, found) ↦ elim (Bool-cases (is_contradicted (get alinks name) keyed)) [
      | inl contradicted ↦ absurd (ground (arith, found, contradicted))
      | inr agrees ↦
          let same : link_of name status keyed (get alinks name) ≡ link =
            ground (arith, found, agrees) in
          subst (λ l. (pair_of l ≡ (name, status)) × IsSampled l) same
            (refl, sampled name status keyed found agrees)
    ]
  ]

  direct_links_ok :
      (connections : Dict ConnectionStatus) {links : List DirectLink}
      → direct_links alinks saw_keyed connections ≡ ok links
      → (map pair_of links ≡ connections) × All IsSampled links
  unfolding direct_links
  direct_links_ok [] e =
      subst (λ ls. (map pair_of ls ≡ []) × All IsSampled ls) (ok_inj e) (refl, tt)
  direct_links_ok ((name, status) ∷ cs) e =
      let (link, one, e1) =
        >>=-returned (direct_link alinks saw_keyed (name, status))
          (λ l. direct_links alinks saw_keyed cs >>= λ ls. ok (l ∷ ls)) e in
      let (links, many, e2) =
        >>=-returned (direct_links alinks saw_keyed cs) (λ ls. ok (link ∷ ls)) e1 in
      let (pair, sampled_link) = direct_link_ok name status one in
      let (pairs, sampled_links) = direct_links_ok cs many in
      subst (λ ls. (map pair_of ls ≡ (name, status) ∷ cs) × All IsSampled ls) (ok_inj e2)
        (rw (pair, pairs) refl, (sampled_link, sampled_links))

-- What a snapshot that is complete was made of.
pub record IsEvidence (node : String) (xstat sawstat : Message) (s : NodeState) : Type 0 where
  pub xdata : Xstat
  pub saw_keyed : Dict Bool
  pub links : List DirectLink
  pub parsed_xstat : parse_xstat xstat node ≡ ok xdata
  pub parsed_sawstat : parse_sawstat sawstat node ≡ ok saw_keyed
  pub same_names :
      (is_subset xdata.connections saw_keyed && is_subset saw_keyed xdata.connections) ≡ true
  pub direct_links : s.direct_links ≡ some links
  pub connections : map (pair_of xdata.alinks saw_keyed) links ≡ xdata.connections
  pub sampled : All (IsSampled xdata.alinks saw_keyed) links

module _ (at node : String) (valid : is_node node ≡ true) where
  caught_unknown :
      (epoch : String) (e : Exception) {s : NodeState}
      → caught at node epoch (err e) ≡ ok s
      → s.state_status ≡ state_unknown
  unfolding caught unknown node_state
  caught_unknown epoch e r = ground (arith, valid)

  -- A snapshot that is complete has the links of XStat's connections, in their order and with their
  -- status, and SawStat knows the same names. Each link is keyed as SawStat says and as ALINKS says
  -- where it has the link, its mode is that of ALINKS or UNKNOWN, and its AllStar node is the name
  -- if that is a valid node.
  pub parse_snapshot-IsEvidence :
      (epoch : String) (xstat sawstat : Message) {s : NodeState}
      → parse_snapshot at node epoch xstat sawstat ≡ ok s
      → s.state_status ≡ complete
      → IsEvidence node xstat sawstat s
  unfolding parse_snapshot
  parse_snapshot-IsEvidence epoch xstat sawstat e done =
      elim (combine_cases at node valid epoch xstat sawstat) [
        | inl (s', same, c) ↦
            let (pairs, sampled) =
              direct_links_ok c.xdata.alinks c.saw_keyed c.xdata.connections c.linked in
            subst (IsEvidence node xstat sawstat)
              (ok_inj (ap (caught at node epoch) (sym same) ∙ e))
              (record {
                xdata = c.xdata;
                saw_keyed = c.saw_keyed;
                links = c.links;
                parsed_xstat = c.parsed_xstat;
                parsed_sawstat = c.parsed_sawstat;
                same_names = c.same_names;
                direct_links = c.direct_links_are;
                connections = pairs;
                sampled = sampled;
              })
        | inr (x, same, _) ↦
            let status = caught_unknown epoch x (ap (caught at node epoch) (sym same) ∙ e) in
            absurd (ground (arith, status, done))
      ]

  -- What `transport.observe` gives or raises, where `Observer.snapshot` catches what it raises.
  abbrev pub is_handled : Observed → Bool
  is_handled (ok sample) = true
  is_handled (err e) = is_caught e

  -- For a valid node, `Observer.snapshot` returns a state of the node unless the transport raises
  -- what it does not catch, and the state is unknown if the transport raised or if the generation
  -- has changed since the lock was acquired.
  pub snapshot-Observes :
      (uuid : String) (before after : ℕ) (outcome : Observed)
      → is_handled outcome ≡ true
      → (o : Observes node (snapshot at uuid node before after outcome)) × (is_ok outcome ≡ false
          → IsUnknown o.state)
        × ((before == after) ≡ false → IsUnknown o.state)
  unfolding snapshot
  snapshot-Observes uuid before after (err e) h =
      let (s, returned, of_node, u) =
        unknown_lem at node valid (some uuid) "AMI_OBSERVATION_UNAVAILABLE" in
      (
        record { state = s; returned = rw (h, returned) refl; of_node = of_node; evidence = inr u },
        (λ _. u),
        (λ _. u),
      )
  snapshot-Observes uuid before after (ok (xstat, sawstat, epoch)) h =
      elim (Bool-cases (before == after)) [
        | inl same ↦
            let o = parse_snapshot-Observes at node valid epoch xstat sawstat in
            (
              record {
                state = o.state;
                returned = rw (same, o.returned) refl;
                of_node = o.of_node;
                evidence = o.evidence;
              },
              (λ no. cc),
              (λ no. absurd (ground (arith, same, no))),
            )
        | inr differ ↦
            let (s, returned, of_node, u) =
              unknown_lem at node valid (some epoch) "STALE_CONNECTION_EPOCH" in
            (
              record {
                state = s;
                returned = rw (differ, returned) refl;
                of_node = of_node;
                evidence = inr u;
              },
              (λ _. u),
              (λ _. u),
            )
      ]
