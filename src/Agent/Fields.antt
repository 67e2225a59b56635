-- ===== src/Agent/Fields.antt =====
-- The fields of a listed node.
use asl3_api.Prelude.{
  String, Bool, true, false, Option, none, List, [], ◌∷◌, Dict, get, put, has, get-put, All, ◌≡◌,
  arith, Bool-cases, inl, inr, eq_iff,
}
use asl3_api.Models.{DirectLink}
use asl3_api.Directory.{NodeCache, enrich_node_list, enrich, info_of, entry_at, node_key}
use asl3_api.Agent.Health.{node_dicts, set_default, with_defaults, listed_nodes}

-- The fields that a listed node always has.
abbrev pub HasFields : Dict (Option String) → Type 0
HasFields d = (has d "callsign" ≡ true) × (has d "description" ≡ true) × (has d "location" ≡ true)

has-put :
    (d : Dict (Option String)) (k j : String) (v : Option String)
    → has d j ≡ true
    → has (put d k v) j ≡ true
has-put d k j v h = ground (arith, get-put d k j v)

has-put_same :
    (d : Dict (Option String)) (k : String) (v : Option String) → has (put d k v) k ≡ true
has-put_same d k v = ground (arith, get-put d k k v, eq_iff k k)

has-set_default_same : (d : Dict (Option String)) (k : String) → has (set_default d k) k ≡ true
has-set_default_same d k = elim (Bool-cases (has d k)) [
  | inl there ↦ rw there there
  | inr missing ↦ rw missing (has-put_same d k none)
]

has-set_default :
    (d : Dict (Option String)) (k j : String) → has d j ≡ true → has (set_default d k) j ≡ true
has-set_default d k j h = elim (Bool-cases (has d k)) [
  | inl there ↦ rw there h
  | inr missing ↦ rw missing (has-put d k j none h)
]

with_defaults-HasFields : (ds : List (Dict (Option String))) → All HasFields (with_defaults ds)
with_defaults-HasFields [] = tt
with_defaults-HasFields (d ∷ ds) =
    let one = set_default d "callsign" in
    let two = set_default one "description" in
    (
      (
        has-set_default two "location" "callsign"
            (has-set_default one "description" "callsign" (has-set_default_same d "callsign")),
        has-set_default two "location" "description" (has-set_default_same one "description"),
        has-set_default_same two "location",
      ),
      with_defaults-HasFields ds,
    )

enrich_node_list-HasFields :
    (c : NodeCache) (ds : List (Dict (Option String))) → All HasFields (enrich_node_list c ds)
unfolding enrich_node_list enrich
enrich_node_list-HasFields c [] = tt
enrich_node_list-HasFields c (d ∷ ds) =
    let info = info_of "" (entry_at c (node_key (get d "node"))) in
    let one = put d "callsign" info.callsign in
    let two = put one "description" info.description in
    (
      (
        has-put two "location" "callsign" info.location (
            has-put one "description" "callsign" info.description
              (has-put_same d "callsign" info.callsign)),
        has-put two "location" "description" info.location
            (has-put_same one "description" info.description),
        has-put_same two "location" info.location,
      ),
      enrich_node_list-HasFields c ds,
    )

-- Every node that `GET /nodes` lists has the fields "callsign", "description" and "location", whether
-- it is enriched or not, as the route's documentation promises.
pub listed_nodes-HasFields :
    (fields_of : DirectLink → Dict (Option String)) (enrich : Bool) (c : NodeCache)
    (links : List DirectLink)
    → All HasFields (listed_nodes fields_of enrich c links)
unfolding listed_nodes
listed_nodes-HasFields fields_of true c links =
    enrich_node_list-HasFields c (node_dicts fields_of links)
listed_nodes-HasFields fields_of false c links =
    with_defaults-HasFields (node_dicts fields_of links)
