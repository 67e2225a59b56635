-- ===== src/Directory/Latest.antt =====
-- What a lookup finds after fetches.
use asl3_api.Prelude.{
  ℕ, String, Option, none, some, List, [], ◌∷◌, Dict, get, put, get-put, str_eq, if◌then◌else◌, ◌≡◌,
  refl, sym, ap, ◌∙◌, arith,
}
use asl3_api.Errors.{Result}
use asl3_api.Directory.{
  Entry, NodeCache, init, splitlines, read_line, add_line, read_lines, Answer, text_of, refresh,
  fetch, fetch_all, NodeInfo, info_of, lookup, enrich, enriched, entry_at, node_key,
}

abbrev pub or_else {ℓ} : {A : Type ℓ} → Option A → Option A → Option A
or_else (some a) o = some a
or_else none o = o

abbrev pub of_line : String → Option (String × Entry) → Option Entry
of_line node none = none
of_line node (some (n, e)) = if str_eq n node then some e else none

-- The entry of the last line that is for the node.
unfoldable pub last_for : String → List String → Option Entry
last_for node [] = none
last_for node (line ∷ lines) = or_else (last_for node lines) (of_line node (read_line line))

-- The text of the last fetch that brought one.
unfoldable pub last_text : List (Result Answer × ℕ) → Option String
last_text [] = none
last_text ((answer, now) ∷ rest) = or_else (last_text rest) (text_of answer)

read_lines-get :
    (node : String) (lines : List String) (cache : Dict Entry)
    → get (read_lines lines cache) node ≡ or_else (last_for node lines) (get cache node)
unfolding read_lines last_for
read_lines-get node [] cache = refl
read_lines-get node (line ∷ lines) cache =
    read_lines-get node lines (add_line (read_line line) cache)
    ∙ added (last_for node lines) (read_line line)
  where
    added :
        (o : Option Entry) (l : Option (String × Entry))
        → or_else o (get (add_line l cache) node)
          ≡ or_else (or_else o (of_line node l)) (get cache node)
    added (some e) l = refl
    added none none = refl
    added none (some (n, e)) = ground (arith, get-put cache n node e)

abbrev pub entry_in : String → Option String → Option Entry
entry_in node none = none
entry_in node (some text) = last_for node (splitlines text)

abbrev cache_of : Dict Entry → Option String → Dict Entry
cache_of cache none = cache
cache_of cache (some text) = read_lines (splitlines text) []

fetched_cache :
    (answers : List (Result Answer × ℕ)) (c : NodeCache)
    → (fetch_all answers c).cache ≡ cache_of c.cache (last_text answers)
unfolding fetch_all fetch last_text
fetched_cache [] c = refl
fetched_cache ((answer, now) ∷ rest) c =
    fetched_cache rest (refresh (text_of answer) now c)
    ∙ refreshed (last_text rest) (text_of answer)
  where
    refreshed :
        (o t : Option String) → cache_of (refresh t now c).cache o ≡ cache_of c.cache (or_else o t)
    refreshed (some text) t = refl
    refreshed none none = refl
    refreshed none (some text) = refl

-- After any fetches, a lookup finds what the last line for the node says, in the text of the last
-- fetch that brought one; the fetches that failed change nothing.
pub lookup-fetch_all :
    (answers : List (Result Answer × ℕ)) (node : String)
    → lookup (fetch_all answers init) node ≡ info_of node (entry_in node (last_text answers))
unfolding lookup
lookup-fetch_all answers node =
    ap (λ cache. info_of node (get cache node)) (fetched_cache answers init)
    ∙ ap (info_of node) (found (last_text answers))
  where
    unfold_found : (t : Option Entry) → or_else t none ≡ t
    unfold_found none = refl
    unfold_found (some e) = refl

    found : (o : Option String) → get (cache_of [] o) node ≡ entry_in node o
    found none = unfold get in refl
    found (some text) =
        read_lines-get node (splitlines text) []
        ∙ unfold get in unfold_found (last_for node (splitlines text))

enriched-get :
    (d : Dict (Option String)) (info : NodeInfo) (key : String)
    → get (enriched d info) key ≡ (
        if str_eq "location" key
        then some info.location
        else if str_eq "description" key
        then some info.description
        else if str_eq "callsign" key
        then some info.callsign
        else get d key)
enriched-get d info key =
    rw
      (
        get-put (put (put d "callsign" info.callsign) "description" info.description) "location" key
            info.location,
        get-put (put d "callsign" info.callsign) "description" key info.description,
        get-put d "callsign" key info.callsign,
      )
      refl

-- The fields do not depend on the name that the answer of a lookup has.
info_of-fields :
    (node : String) (o : Option Entry) → info_of node o ≡ record (info_of "" o) { node = node }
info_of-fields node none = refl
info_of-fields node (some e) = refl

-- A node dict that has a text for "node" gets the three fields of that node's lookup, and keeps its
-- other fields.
pub enrich-lookup :
    (c : NodeCache) (d : Dict (Option String)) (node key : String)
    → get d "node" ≡ some (some node)
    → get (enrich c d) key ≡ (
        if str_eq "location" key
        then some (lookup c node).location
        else if str_eq "description" key
        then some (lookup c node).description
        else if str_eq "callsign" key
        then some (lookup c node).callsign
        else get d key)
unfolding enrich lookup
enrich-lookup c d node key e =
    let info = info_of "" (entry_at c (node_key (get d "node"))) in
    let same : info_of node (get c.cache node) ≡ record info { node = node } =
      info_of-fields node (get c.cache node)
      ∙ ap (λ o. record (info_of "" (entry_at c (node_key o))) { node = node }) (sym e) in
    enriched-get d info key
    ∙ ap
        (λ (i : NodeInfo).
          if str_eq "location" key
          then some i.location
          else if str_eq "description" key
          then some i.description
          else if str_eq "callsign" key
          then some i.callsign
          else get d key)
        (sym same)
