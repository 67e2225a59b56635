-- ===== src/Events/Notified.antt =====
-- What the endpoint of the webhooks is told.
use asl3_api.Prelude.{
  String, true, Option, none, some, if◌then◌else◌, Bool-cases, inl, inr, List, [], ◌∷◌, ◌++◌, map,
  ◌≡◌, refl, sym, ap, ◌∙◌, append_nil, snoc-append, subst,
}
use asl3_api.Errors.{Result, ok, err, type_error, or_raise}
use asl3_api.Models.{NodeState, DirectLink}
use asl3_api.Legacy.Client.{get_connected_nodes}
use asl3_api.Events.{IsSame, has-to_set, to_set, minus, after, after-IsSame, with_all, without_all}
use asl3_api.Events.Listener.{nodes_of}
use asl3_api.Events.Webhooks.{
  Webhook, node_connected, node_disconnected, Handler, send_all, mode_of, connects, disconnects,
  notice, noticed, check_node_changes, monitor,
}

-- The nodes that the webhooks leave connected.
abbrev pub see : Webhook → List String → List String
see (node_connected node mode) vs = node ∷ vs
see (node_disconnected node) vs = minus vs (node ∷ [])

unfoldable pub replay : List Webhook → List String → List String
replay [] vs = vs
replay (w ∷ ws) vs = replay ws (see w vs)

replay-append :
    (xs ys : List Webhook) (vs : List String) → replay (xs ++ ys) vs ≡ replay ys (replay xs vs)
unfolding replay
replay-append [] ys vs = refl
replay-append (x ∷ xs) ys vs = replay-append xs ys (see x vs)

send_all-posted :
    (ws : List Webhook) (known : List String) (posted : List Webhook)
    → send_all true ws (record { has_session = true; known_nodes = known; posted = posted })
      ≡ record { has_session = true; known_nodes = known; posted = posted ++ ws }
unfolding send_all
send_all-posted [] known posted =
    ap (λ l. record { has_session = true; known_nodes = known; posted = l })
      (sym (append_nil posted))
send_all-posted (w ∷ ws) known posted =
    send_all-posted ws known (posted ++ w ∷ [])
    ∙ ap (λ l. record { has_session = true; known_nodes = known; posted = l })
        (snoc-append posted w ws)

replay-connects :
    (mode : String → String) (ns vs : List String)
    → replay (map (λ n. node_connected n (mode n)) ns) vs ≡ with_all ns vs
unfolding replay
replay-connects mode [] vs = refl
replay-connects mode (n ∷ ns) vs = replay-connects mode ns (n ∷ vs)

replay-disconnects :
    (ns vs : List String) → replay (map node_disconnected ns) vs ≡ without_all ns vs
unfolding replay
replay-disconnects [] vs = refl
replay-disconnects (n ∷ ns) vs = replay-disconnects ns (minus vs (n ∷ []))

-- The nodes of the last snapshot that is complete, or those before.
abbrev pub linked : Option (List DirectLink) → List String → List String
linked none known = known
linked (some links) known = nodes_of links

abbrev pub shown : Result NodeState → List String → List String
shown (err e) known = known
shown (ok state) known = if state.is_complete then linked state.direct_links known else known

unfoldable pub latest : List (Result NodeState) → List String → List String
latest [] known = known
latest (s ∷ ss) known = latest ss (shown s known)

shown-IsSame :
    (s : Result NodeState) (known other : List String)
    → IsSame known other
    → IsSame (shown s known) (shown s other)
shown-IsSame (err e) known other same = same
shown-IsSame (ok state) known other same = elim (Bool-cases state.is_complete) [
  | inr partial ↦ rw partial same
  | inl whole ↦ rw whole (by_links state.direct_links)
]
  where
    by_links : (links : Option (List DirectLink)) → IsSame (linked links known) (linked links other)
    by_links none = same
    by_links (some links) = λ n. refl

-- What was posted leaves the nodes that the handler knows.
pub record IsTold (h : Handler) : Type 0 where
  pub session : h.has_session ≡ true
  pub told : IsSame (replay h.posted []) h.known_nodes

module _ (arrange : List String → List String)
    (arranged : (ns : List String) → IsSame (arrange ns) ns) where
  notice_open :
      (links : List DirectLink) (known : List String) (posted : List Webhook)
      → IsSame (replay posted []) known
      → IsTold (
          notice true arrange links
            (record { has_session = true; known_nodes = known; posted = posted }))
  unfolding after
  notice_open links known posted same =
      let current = to_set (nodes_of links) in
      let on = connects true arrange links known in
      let off = disconnects true arrange links known in
      let sent =
        ap (send_all true off) (send_all-posted on known posted)
        ∙ send_all-posted off known (posted ++ on) in
      let seen : replay ((posted ++ on) ++ off) []
          ≡ after arrange current known (replay posted []) =
        replay-append (posted ++ on) off []
        ∙ ap (replay off) (replay-append posted on [] ∙ replay-connects (λ n. mode_of n links) _ _)
        ∙ replay-disconnects _ _ in
      subst (λ (g : Handler). IsTold (record g { known_nodes = current })) (sym sent)
        (record {
          session = refl;
          told =
              subst (λ vs. IsSame vs current) (sym seen)
                (after-IsSame arrange arranged current known _ same);
        })

  notice-IsTold :
      (links : List DirectLink) (h : Handler) → IsTold h → IsTold (notice true arrange links h)
  notice-IsTold links h t =
      subst (λ g. IsTold (notice true arrange links g))
        (ap (λ b. record { has_session = b; known_nodes = h.known_nodes; posted = h.posted })
          (sym t.session))
        (notice_open links h.known_nodes h.posted t.told)

  check-IsTold :
      (snapshot : Result NodeState) (h : Handler)
      → IsTold h
      → IsTold (check_node_changes true arrange snapshot h)
  unfolding check_node_changes
  check-IsTold snapshot h t = by_result (get_connected_nodes snapshot)
    where
      by_result : (r : Result (List DirectLink)) → IsTold (noticed true arrange r h)
      by_result (ok links) = notice-IsTold links h t
      by_result (err e) = t

  notice-known :
      (links : List DirectLink) (h : Handler)
      → IsSame (notice true arrange links h).known_nodes (nodes_of links)
  notice-known links h n = has-to_set n (nodes_of links)

  check-known :
      (snapshot : Result NodeState) (h : Handler)
      → IsSame
          (check_node_changes true arrange snapshot h).known_nodes
          (shown snapshot h.known_nodes)
  unfolding check_node_changes get_connected_nodes
  check-known (err e) h = λ n. refl
  check-known (ok state) h = elim (Bool-cases state.is_complete) [
    | inr partial ↦ rw partial (λ n. refl)
    | inl whole ↦ rw whole (by_links state.direct_links)
  ]
    where
      by_links :
          (links : Option (List DirectLink))
          → IsSame
              (noticed true arrange
                (or_raise links (type_error "'NoneType' object is not iterable"))
                h).known_nodes
              (linked links h.known_nodes)
      by_links none = λ n. refl
      by_links (some links) = notice-known links h

  monitor-known :
      (snapshots : List (Result NodeState)) (h : Handler) (known : List String)
      → IsSame h.known_nodes known
      → IsSame (monitor true arrange snapshots h).known_nodes (latest snapshots known)
  unfolding monitor latest
  monitor-known [] h known same = same
  monitor-known (s ∷ ss) h known same =
      monitor-known ss (check_node_changes true arrange s h) (shown s known)
        λ n. check-known s h n ∙ shown-IsSame s h.known_nodes known same n

  monitor-IsTold :
      (snapshots : List (Result NodeState)) (h : Handler)
      → IsTold h
      → IsTold (monitor true arrange snapshots h)
  unfolding monitor
  monitor-IsTold [] h t = t
  monitor-IsTold (s ∷ ss) h t =
      monitor-IsTold ss (check_node_changes true arrange s h) (check-IsTold s h t)

  -- While webhooks are enabled, and the session is open, the webhooks that were attempted leave
  -- exactly the nodes of the last snapshot that is complete, or, if no snapshot was, the nodes that
  -- the handler knew at first, if they left those before. Python iterates over the members of a set,
  -- each at least once, in any order.
  pub monitor-latest :
      (snapshots : List (Result NodeState)) (h : Handler)
      → IsTold h
      → IsSame
          (replay (monitor true arrange snapshots h).posted [])
          (latest snapshots h.known_nodes)
  monitor-latest snapshots h t n =
      (monitor-IsTold snapshots h t).told n ∙ monitor-known snapshots h h.known_nodes (λ n. refl) n
