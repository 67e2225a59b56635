-- ===== src/Events/Recent.antt =====
-- The queues of the listener are bounded, and hold the latest events in their order.
use asl3_api.Prelude.{
  ℕ, ◌≤◌, String, Bool, true, false, List, [], ◌∷◌, ◌++◌, map, length, drop, leb, if◌then◌else◌,
  ◌==◌, All, length-append, ◌≡◌, refl, sym, ap, ◌∙◌, arith, inl, inr, Bool-cases, Option-cases,
  append_nil,
}
use asl3_api.Errors.{Result, ok, err}
use asl3_api.Effects.{modify, either-keeps}
use asl3_api.Models.{NodeState}
use asl3_api.Events.{to_set}
use asl3_api.Events.Listener.{
  Event, rxkeyed, txkeyed, Origin, Queue, Listener, init, discard, make_room, deliver, broadcast,
  broadcast_all, make_event, is_same_flag, snapshot_of, forget, observe_rx, observe_tx, nodes_of,
  transitions, observe_state, poll_once, Action, starts, stops, subscribes, unsubscribes, receives,
  polls, take_first, act, run,
}

-- The events of a queue are the latest of those sent, and at most 200.
pub record Recent (sent : List Event) (items : List Event) : Type 0 where
  pub bounded : length items ≤ 200
  pub before : List Event
  pub latest : sent ≡ before ++ items

abbrev pub AllRecent : Listener → Type 0
AllRecent l = All (λ (q : Queue). Recent l.sent q.items) l.queues

append_assoc_list : (xs ys zs : List Event) → (xs ++ ys) ++ zs ≡ xs ++ (ys ++ zs)
append_assoc_list [] ys zs = refl
append_assoc_list (x ∷ xs) ys zs = ap (λ l. x ∷ l) (append_assoc_list xs ys zs)

-- Without its oldest event, a queue holds the latest ones still.
drop-Recent : (sent items : List Event) → Recent sent items → Recent sent (drop 1 items)
drop-Recent sent [] r = r
drop-Recent sent (x ∷ items) r = record {
  bounded = omega (arith, r.bounded);
  before = r.before ++ x ∷ [];
  latest = r.latest ∙ sym (append_assoc_list r.before (x ∷ []) items);
}

made_room : (items : List Event) → length items ≤ 200 → length (make_room items) ≤ 199
made_room [] h = omega arith
made_room (x ∷ items) h = ground (arith, h)

make_room-Recent : (sent items : List Event) → Recent sent items → Recent sent (make_room items)
make_room-Recent sent items r = elim (Bool-cases (leb 200 (length items))) [
  | inl full ↦ rw full (drop-Recent sent items r)
  | inr room ↦ rw room r
]

deliver-Recent :
    (sent : List Event) (e : Event) (items : List Event)
    → Recent sent items
    → Recent (sent ++ e ∷ []) (make_room items ++ e ∷ [])
deliver-Recent sent e items r =
    let kept = make_room-Recent sent items r in
    record {
      bounded = omega (arith, made_room items r.bounded, length-append (make_room items) (e ∷ []));
      before = kept.before;
      latest =
          ap (λ l. l ++ e ∷ []) kept.latest
          ∙ append_assoc_list kept.before (make_room items) (e ∷ []);
    }

broadcast-AllRecent : (e : Event) (l : Listener) → AllRecent l → AllRecent (broadcast e l)
unfolding broadcast
broadcast-AllRecent e l h = over l.queues h
  where
    over :
        (qs : List Queue)
        → All (λ (q : Queue). Recent l.sent q.items) qs
        → All (λ (q : Queue). Recent (l.sent ++ e ∷ []) q.items) (map (deliver e) qs)
    over [] g = tt
    over (q ∷ qs) g = (deliver-Recent l.sent e q.items g.0, over qs g.1)

broadcast_all-AllRecent :
    (es : List Event) (l : Listener) → AllRecent l → AllRecent (broadcast_all es l)
unfolding broadcast_all
broadcast_all-AllRecent [] l h = h
broadcast_all-AllRecent (e ∷ es) l h =
    broadcast_all-AllRecent es (broadcast e l) (broadcast-AllRecent e l h)

changed-AllRecent :
    (same : Bool) (l l' : Listener)
    → AllRecent l
    → AllRecent l'
    → AllRecent (if same then l else l')
changed-AllRecent true l l' h h' = h
changed-AllRecent false l l' h h' = h'

discard-AllRecent :
    (sent : List Event) (id : ℕ) (qs : List Queue)
    → All (λ (q : Queue). Recent sent q.items) qs
    → All (λ (q : Queue). Recent sent q.items) (discard id qs)
discard-AllRecent sent id [] h = tt
discard-AllRecent sent id (q ∷ qs) h = elim (Bool-cases (q.id == id)) [
  | inl here ↦ rw here (discard-AllRecent sent id qs h.1)
  | inr other ↦ rw other (h.0, discard-AllRecent sent id qs h.1)
]

take_first-AllRecent :
    (sent : List Event) (id : ℕ) (qs : List Queue)
    → All (λ (q : Queue). Recent sent q.items) qs
    → All (λ (q : Queue). Recent sent q.items) (map (take_first id) qs)
take_first-AllRecent sent id [] h = tt
take_first-AllRecent sent id (q ∷ qs) h = elim (Bool-cases (q.id == id)) [
  | inl here ↦ rw here (drop-Recent sent q.items h.0, take_first-AllRecent sent id qs h.1)
  | inr other ↦ rw other (h.0, take_first-AllRecent sent id qs h.1)
]

module _ (arrange : List String → List String) (from : Origin) where
  observe_state-AllRecent :
      (state : NodeState) (l : Listener)
      → AllRecent l
      → AllRecent (observe_state arrange from state l).1
  observe_state-AllRecent state l h =
      let l1 = observe_rx from state l in
      let l2 = observe_tx from state l1 in
      let h1 =
        changed-AllRecent (is_same_flag state.rx_keyed l.rxkeyed) l _ h
          (broadcast-AllRecent (make_event from (rxkeyed state.rx_keyed state.node)) l h) in
      let h2 =
        changed-AllRecent (is_same_flag state.tx_keyed l1.txkeyed) l1 _ h1
          (broadcast-AllRecent (make_event from (txkeyed state.tx_keyed state.node)) l1 h1) in
      elim (Option-cases state.direct_links) [
        | inl missing ↦ rw missing h2
        | inr (links, there) ↦ rw there (
            broadcast_all-AllRecent
              (transitions arrange from (to_set (nodes_of links)) l2.known_nodes) l2 h2)
      ]

  poll_once-AllRecent :
      (snapshot : Result NodeState) (l : Listener)
      → AllRecent l
      → AllRecent (poll_once arrange from snapshot l).1
  unfolding poll_once
  poll_once-AllRecent (err e) l h = h
  poll_once-AllRecent (ok state) l h =
      let told = make_event from (snapshot_of state) in
      let h1 = broadcast-AllRecent told l h in
      either-keeps AllRecent state.is_complete (observe_state arrange from state) (modify forget)
        (broadcast told l) (observe_state-AllRecent state (broadcast told l) h1) h1

  act-AllRecent : (a : Action) (l : Listener) → AllRecent l → AllRecent (act arrange from a l)
  unfolding act
  act-AllRecent (starts enabled) l h = elim (Bool-cases enabled) [
    | inl on ↦ rw on h
    | inr off ↦ rw off h
  ]
  act-AllRecent stops l h = h
  act-AllRecent subscribes l h =
      (record { bounded = omega arith; before = l.sent; latest = sym (append_nil l.sent) }, h)
  act-AllRecent (unsubscribes id) l h = discard-AllRecent l.sent id l.queues h
  act-AllRecent (receives id) l h = take_first-AllRecent l.sent id l.queues h
  act-AllRecent (polls snapshot) l h =
      changed-AllRecent l.polling (poll_once arrange from snapshot l).1 l
        (poll_once-AllRecent snapshot l h) h

  -- In every run of the listener, the queue of each subscriber holds at most 200 events, which are
  -- the last ones that were sent, in their order.
  pub run-AllRecent : (actions : List Action) → AllRecent (run arrange from actions init)
  unfolding run
  run-AllRecent actions = from_start actions init tt
    where
      from_start :
          (todo : List Action) (l : Listener) → AllRecent l → AllRecent (run arrange from todo l)
      from_start [] l h = h
      from_start (a ∷ todo) l h = from_start todo (act arrange from a l) (act-AllRecent a l h)
