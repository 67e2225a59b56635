-- ===== src/Events/Replay.antt =====
-- A client that follows the events alone, and keeps what the listener keeps.
use asl3_api.Prelude.{
  String, Bool, true, false, Option, none, some, List, [], ◌∷◌, if◌then◌else◌, ◌≡◌, refl, sym, ap,
  ◌∙◌, subst,
}
use asl3_api.Errors.{Result, ok, err, or_raise, type_error}
use asl3_api.Effects.{lift, modify, ◌>>=◌}
use asl3_api.Models.{NodeState, DirectLink}
use asl3_api.Events.{IsSame, after, after-IsSame, to_set, minus, has-to_set}
use asl3_api.Events.Listener.{
  variables_snapshot, Origin, Listener, init, broadcast, make_event, forget, observe_rx, observe_tx,
  nodes_of, connected, disconnected, transitions, observe_links, observe_state, poll_once, Action,
  starts, stops, subscribes, unsubscribes, receives, polls, act, run,
}
use asl3_api.Events.View.{
  View, blank, baseline, replay, replay-append, AreSame, Matches, Follows, replay-broadcast_all,
  broadcast_all-known, observe_rx-Matches, observe_tx-Matches, replay-connected,
  replay-disconnected,
}

baseline-none : (known : Option (List String)) → baseline known none ≡ known
baseline-none none = refl
baseline-none (some known) = refl

module _ (arrange : List String → List String) (from : Origin)
    (arranged : (ns : List String) → IsSame (arrange ns) ns) where
  replay-transitions :
      (current known vs : List String) (rx tx : Option Bool)
      → replay
          (transitions arrange from current (some known))
          (record { links = some vs; rx = rx; tx = tx })
        ≡ record { links = some (after arrange current known vs); rx = rx; tx = tx }
  unfolding after
  replay-transitions current known vs rx tx =
      replay-append (connected arrange from current known) (disconnected arrange from current known)
        _
      ∙ ap (replay (disconnected arrange from current known))
          (replay-connected from (arrange (minus current known)) vs rx tx)
      ∙ replay-disconnected from (arrange (minus known current)) _ rx tx

  moved :
      (current : List String) (known : Option (List String)) (v : View) (links : List DirectLink)
      → IsSame current (nodes_of links)
      → AreSame v.links (baseline known (some links))
      → (w : List String) × (replay (transitions arrange from current known) v
          ≡ record { links = some w; rx = v.rx; tx = v.tx })
        × IsSame w current
  unfolding replay
  moved current known v links same h = go known v.links refl h
    where
      go :
          (k vl : Option (List String))
          → v.links ≡ vl
          → AreSame vl (baseline k (some links))
          → (w : List String) × (replay (transitions arrange from current k) v
              ≡ record { links = some w; rx = v.rx; tx = v.tx })
            × IsSame w current
      go none none e g = absurd g
      go none (some vs) e g =
          (vs, ap (λ o. record { links = o; rx = v.rx; tx = v.tx }) e, λ n. g n ∙ sym (same n))
      go (some k) none e g = absurd g
      go (some k) (some vs) e g = (
        after arrange current k vs,
        ap
              (λ o.
                replay (transitions arrange from current (some k))
                  (record { links = o; rx = v.rx; tx = v.tx }))
              e
            ∙ replay-transitions current k vs v.rx v.tx,
        after-IsSame arrange arranged current k vs g,
      )

  observe_links-Follows :
      (links : List DirectLink) (l : Listener)
      → Matches (λ known. baseline known (some links)) (replay l.sent blank) l
      → Follows (observe_links arrange from (to_set (nodes_of links)) l)
  observe_links-Follows links l h =
      let current = to_set (nodes_of links) in
      let es = transitions arrange from current l.known_nodes in
      let (w, seen, same) =
        moved current l.known_nodes (replay l.sent blank) links (λ n. has-to_set n (nodes_of links))
          h.links in
      let (known, rx_kept, tx_kept) = broadcast_all-known es l in
      subst (λ v. Matches (λ known. known) v (observe_links arrange from current l))
        (sym (replay-broadcast_all es l ∙ seen))
        (record { links = same; rx = h.rx ∙ sym rx_kept; tx = h.tx ∙ sym tx_kept })

  observe_state-Follows :
      (state : NodeState) (l : Listener)
      → Matches (λ known. baseline known state.direct_links) (replay l.sent blank) l
      → Follows (observe_state arrange from state l).1
  observe_state-Follows state l h =
      let l1 = observe_rx from state l in
      let l2 = observe_tx from state l1 in
      let h1 = observe_rx-Matches from state _ l h in
      let h2 = observe_tx-Matches from state _ l1 h1 in finish state.direct_links l2 h2
    where
      finish :
          (direct_links : Option (List DirectLink)) (l : Listener)
          → Matches (λ known. baseline known direct_links) (replay l.sent blank) l
          → Follows
              ((lift (or_raise direct_links (type_error "'NoneType' object is not iterable"))
                  >>= λ links. modify (observe_links arrange from (to_set (nodes_of links))))
                l).1
      finish (some links) l h = observe_links-Follows links l h
      finish none l h = record {
        links = subst (AreSame (replay l.sent blank).links) (baseline-none l.known_nodes) h.links;
        rx = h.rx;
        tx = h.tx;
      }

  baseline-AreSame :
      (xs ys : Option (List String)) (links : Option (List DirectLink))
      → AreSame xs ys
      → AreSame (baseline xs links) (baseline ys links)
  baseline-AreSame none none none h = h
  baseline-AreSame none none (some links) h = λ n. refl
  baseline-AreSame (some xs) (some ys) links h = h
  baseline-AreSame none (some ys) links h = absurd h
  baseline-AreSame (some xs) none links h = absurd h

  -- A round after the snapshot returned.
  snapshot-Follows :
      (state : NodeState) (complete : Bool) (l : Listener)
      → Follows l
      → Follows
          ((if complete then observe_state arrange from state else modify forget) (
            broadcast
              (make_event from (
                variables_snapshot state.rx_keyed state.tx_keyed complete state.state_status
                  state.direct_links))
              l)).1
  unfolding broadcast replay
  snapshot-Follows state true l h =
      let e = make_event from (
        variables_snapshot state.rx_keyed state.tx_keyed true state.state_status
          state.direct_links) in
      observe_state-Follows state (broadcast e l) (
        subst (λ v. Matches (λ known. baseline known state.direct_links) v (broadcast e l))
          (sym (replay-append l.sent (e ∷ []) blank))
          (record {
            links =
                baseline-AreSame (replay l.sent blank).links l.known_nodes state.direct_links
                  h.links;
            rx = h.rx;
            tx = h.tx;
          }))
  snapshot-Follows state false l h =
      let e = make_event from (
        variables_snapshot state.rx_keyed state.tx_keyed false state.state_status
          state.direct_links) in
      subst (λ v. Matches (λ known. known) v (forget (broadcast e l)))
        (sym (replay-append l.sent (e ∷ []) blank)) (record { links = tt; rx = refl; tx = refl })

  poll_once-Follows :
      (snapshot : Result NodeState) (l : Listener)
      → Follows l
      → Follows (poll_once arrange from snapshot l).1
  unfolding poll_once
  poll_once-Follows (err e) l h = h
  poll_once-Follows (ok state) l h = snapshot-Follows state state.is_complete l h

  kept_if : (b : Bool) (l l' : Listener) → Follows l → Follows l' → Follows (if b then l else l')
  kept_if true l l' h h' = h
  kept_if false l l' h h' = h'

  act-Follows : (a : Action) (l : Listener) → Follows l → Follows (act arrange from a l)
  unfolding act
  act-Follows (starts enabled) l h =
      kept_if enabled (record l { polling = true }) l
        (record { links = h.links; rx = h.rx; tx = h.tx }) h
  act-Follows stops l h = record { links = h.links; rx = h.rx; tx = h.tx }
  act-Follows subscribes l h = record { links = h.links; rx = h.rx; tx = h.tx }
  act-Follows (unsubscribes id) l h = record { links = h.links; rx = h.rx; tx = h.tx }
  act-Follows (receives id) l h = record { links = h.links; rx = h.rx; tx = h.tx }
  act-Follows (polls snapshot) l h =
      kept_if l.polling (poll_once arrange from snapshot l).1 l (poll_once-Follows snapshot l h) h

  -- In every run of the listener, a client that follows all the events, and takes the links of the
  -- first complete snapshot after each gap for its baseline, has the links and the flags that the
  -- listener keeps. Python iterates over the members of a set, each at least once, in any order.
  pub run-Follows : (actions : List Action) → Follows (run arrange from actions init)
  unfolding run replay
  run-Follows actions = from_start actions init (record { links = tt; rx = refl; tx = refl })
    where
      from_start :
          (todo : List Action) (l : Listener) → Follows l → Follows (run arrange from todo l)
      from_start [] l h = h
      from_start (a ∷ todo) l h = from_start todo (act arrange from a l) (act-Follows a l h)
