-- ===== src/Events/View.antt =====
-- What a client makes of the events, beside what the listener keeps.
use asl3_api.Prelude.{
  String, Bool, true, false, Option, none, some, List, [], ◌∷◌, ◌++◌, map, ◌≡◌, refl, sym, ap, ◌∙◌,
  subst, inl, inr, Bool-cases,
}
use asl3_api.Models.{NodeState, DirectLink}
use asl3_api.Events.{IsSame, with_all, without_all, minus}
use asl3_api.Events.Listener.{
  Detail, variables_snapshot, rxkeyed, txkeyed, link_connected, link_disconnected, Event, Origin,
  Listener, broadcast, broadcast_all, make_event, is_same_flag, observe_rx, observe_tx, nodes_of,
}

-- What a client knows: the nodes that are linked, if it has a baseline, and the two flags.
pub record View : Type 0 where
  pub links : Option (List String)
  pub rx : Option Bool
  pub tx : Option Bool

abbrev pub blank : View
blank = record { links = none; rx = none; tx = none }

-- The first complete snapshot after a gap is the baseline.
abbrev pub baseline : Option (List String) → Option (List DirectLink) → Option (List String)
baseline none (some links) = some (nodes_of links)
baseline known _ = known

abbrev pub with_node : String → Option (List String) → Option (List String)
with_node n none = none
with_node n (some ns) = some (n ∷ ns)

abbrev pub without_node : String → Option (List String) → Option (List String)
without_node n none = none
without_node n (some ns) = some (minus ns (n ∷ []))

abbrev pub see : Detail → View → View
see (variables_snapshot rx tx true status links) v = record v { links = baseline v.links links }
see (variables_snapshot rx tx false status links) v = blank
see (rxkeyed value node) v = record v { rx = value }
see (txkeyed value node) v = record v { tx = value }
see (link_connected node) v = record v { links = with_node node v.links }
see (link_disconnected node) v = record v { links = without_node node v.links }

unfoldable pub replay : List Event → View → View
replay [] v = v
replay (e ∷ es) v = replay es (see e.detail v)

pub replay-append : (xs ys : List Event) (v : View) → replay (xs ++ ys) v ≡ replay ys (replay xs v)
unfolding replay
replay-append [] ys v = refl
replay-append (x ∷ xs) ys v = replay-append xs ys (see x.detail v)

abbrev pub AreSame : Option (List String) → Option (List String) → Type 0
AreSame none none = Unit
AreSame (some xs) (some ys) = IsSame xs ys
AreSame _ _ = ⊥

-- The view has the flags that the listener keeps, and the nodes that `shown` makes of those it keeps.
pub record Matches (shown : Option (List String) → Option (List String)) (v : View) (l : Listener)
    : Type 0 where
  pub links : AreSame v.links (shown l.known_nodes)
  pub rx : v.rx ≡ l.rxkeyed
  pub tx : v.tx ≡ l.txkeyed

-- The view of a client that has seen all events has what the listener keeps.
abbrev pub Follows : Listener → Type 0
Follows l = Matches (λ known. known) (replay l.sent blank) l

pub replay-broadcast_all :
    (es : List Event) (l : Listener)
    → replay (broadcast_all es l).sent blank ≡ replay es (replay l.sent blank)
unfolding broadcast_all broadcast replay
replay-broadcast_all [] l = refl
replay-broadcast_all (e ∷ es) l =
    replay-broadcast_all es (broadcast e l) ∙ ap (replay es) (replay-append l.sent (e ∷ []) blank)

pub broadcast_all-known :
    (es : List Event) (l : Listener)
    → ((broadcast_all es l).known_nodes ≡ l.known_nodes)
      × ((broadcast_all es l).rxkeyed ≡ l.rxkeyed)
      × ((broadcast_all es l).txkeyed ≡ l.txkeyed)
unfolding broadcast_all broadcast
broadcast_all-known [] l = (refl, refl, refl)
broadcast_all-known (e ∷ es) l = broadcast_all-known es (broadcast e l)

module _ (from : Origin) (state : NodeState) (shown : Option (List String) → Option (List String))
    (l : Listener) where
  pub observe_rx-Matches :
      Matches shown (replay l.sent blank) l
      → Matches shown (replay (observe_rx from state l).sent blank) (observe_rx from state l)
  unfolding broadcast replay
  observe_rx-Matches h = elim (Bool-cases (is_same_flag state.rx_keyed l.rxkeyed)) [
    | inl same ↦ rw same h
    | inr changed ↦
        let e = make_event from (rxkeyed state.rx_keyed state.node) in
        let l' : Listener = record (broadcast e l) { rxkeyed = state.rx_keyed } in
        rw changed (
          subst (λ v. Matches shown v l') (sym (replay-append l.sent (e ∷ []) blank))
            (record { links = h.links; rx = refl; tx = h.tx }))
  ]

  pub observe_tx-Matches :
      Matches shown (replay l.sent blank) l
      → Matches shown (replay (observe_tx from state l).sent blank) (observe_tx from state l)
  unfolding broadcast replay
  observe_tx-Matches h = elim (Bool-cases (is_same_flag state.tx_keyed l.txkeyed)) [
    | inl same ↦ rw same h
    | inr changed ↦
        let e = make_event from (txkeyed state.tx_keyed state.node) in
        let l' : Listener = record (broadcast e l) { txkeyed = state.tx_keyed } in
        rw changed (
          subst (λ v. Matches shown v l') (sym (replay-append l.sent (e ∷ []) blank))
            (record { links = h.links; rx = h.rx; tx = refl }))
  ]

pub replay-connected :
    (from : Origin) (ns vs : List String) (rx tx : Option Bool)
    → replay
        (map (λ node. make_event from (link_connected node)) ns)
        (record { links = some vs; rx = rx; tx = tx })
      ≡ record { links = some (with_all ns vs); rx = rx; tx = tx }
unfolding replay
replay-connected from [] vs rx tx = refl
replay-connected from (n ∷ ns) vs rx tx = replay-connected from ns (n ∷ vs) rx tx

pub replay-disconnected :
    (from : Origin) (ns vs : List String) (rx tx : Option Bool)
    → replay
        (map (λ node. make_event from (link_disconnected node)) ns)
        (record { links = some vs; rx = rx; tx = tx })
      ≡ record { links = some (without_all ns vs); rx = rx; tx = tx }
unfolding replay
replay-disconnected from [] vs rx tx = refl
replay-disconnected from (n ∷ ns) vs rx tx = replay-disconnected from ns (minus vs (n ∷ [])) rx tx
