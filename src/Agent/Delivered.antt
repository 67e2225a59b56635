-- ===== src/Agent/Delivered.antt =====
-- What a client of the old event stream is told, against the events that reached its queue.
use asl3_api.Prelude.{
  ◌+◌, ◌≤◌, String, true, List, [], ◌∷◌, ◌++◌, map, length, drop, all_chars, All, length-append,
  append_nil, ◌≡◌, refl, sym, ap, ◌∙◌, arith,
}
use asl3_api.Errors.{Result, ok, err}
use asl3_api.Legacy.Client.{Variables}
use asl3_api.Events.Listener.{
  Detail, variables_snapshot, rxkeyed, txkeyed, link_connected, link_disconnected, Event, Queue,
  make_room, deliver,
}
use asl3_api.Http.Frames.{body, read_events, type_or_message}
use asl3_api.Http.Frames.Read.{is_inline, IsInline, told, told_all, read_events-body}
use asl3_api.Agent.Stream.{type_text, Turn, gone, waits, deliver_all, next_chunk, serve, generator}

append_assoc {ℓ} : {A : Type ℓ} (xs ys zs : List A) → (xs ++ ys) ++ zs ≡ xs ++ (ys ++ zs)
append_assoc [] ys zs = refl
append_assoc (x ∷ xs) ys zs = ap (λ l. x ∷ l) (append_assoc xs ys zs)

map-append {ℓ κ} :
    {A : Type ℓ} {B : Type κ} (f : A → B) (xs ys : List A) → map f (xs ++ ys) ≡ map f xs ++ map f ys
map-append f [] ys = refl
map-append f (x ∷ xs) ys = ap (λ l. f x ∷ l) (map-append f xs ys)

-- The events that reached the queue before the client went.
abbrev pub reached : List Turn → List Event
reached [] = []
reached (gone ∷ turns) = []
reached (waits es ∷ turns) = es ++ reached turns

deliver_all-items :
    (es : List Event) (q : Queue)
    → length q.items + length es ≤ 200
    → (deliver_all es q).items ≡ q.items ++ es
deliver_all-items [] q h = sym (append_nil q.items)
deliver_all-items (e ∷ es) q h =
    let room : make_room q.items ≡ q.items = ground (arith, h) in
    let fits : length (make_room q.items ++ e ∷ []) + length es ≤ 200 =
      rw room (omega (arith, length-append q.items (e ∷ []), h)) in
    deliver_all-items es (deliver e q) fits
    ∙ ap (λ items. (items ++ e ∷ []) ++ es) room
    ∙ append_assoc q.items (e ∷ []) es

typed : (d : Detail) → type_or_message (type_text d) ≡ type_text d
typed (variables_snapshot _ _ _ _ _) = refl
typed (rxkeyed _ _) = refl
typed (txkeyed _ _) = refl
typed (link_connected _) = refl
typed (link_disconnected _) = refl

type_text-is_inline : (d : Detail) → all_chars is_inline (type_text d) ≡ true
unfolding all_chars
type_text-is_inline (variables_snapshot _ _ _ _ _) = refl
type_text-is_inline (rxkeyed _ _) = refl
type_text-is_inline (txkeyed _ _) = refl
type_text-is_inline (link_connected _) = refl
type_text-is_inline (link_disconnected _) = refl

module _ (dump : Event → String) (dump_variables : Variables → String) where
  -- An event as a client should read it.
  abbrev pub as_read : Event → String × String
  as_read e = (type_text e.detail, dump e)

  abbrev pub greeted : Result Variables → List (String × String)
  greeted (ok variables) = ("node.variables.snapshot", dump_variables variables) ∷ []
  greeted (err e) = []

  -- What the next chunk tells, and what is left of the queue.
  next_told :
      (items : List Event)
      → told (next_chunk dump dump_variables items) ++ map as_read (drop 1 items)
        ≡ map as_read items
  next_told [] = refl
  next_told (e ∷ es) = ap (λ t. (t, dump e) ∷ map as_read es) (typed e.detail)

  serve-told :
      (turns : List Turn) (q : Queue)
      → length q.items + length (reached turns) ≤ 200
      → told_all (serve dump dump_variables turns q).0
          ++ map as_read (serve dump dump_variables turns q).1.items
        ≡ map as_read (q.items ++ reached turns)
  unfolding serve
  serve-told [] q h = ap (map as_read) (sym (append_nil q.items))
  serve-told (gone ∷ turns) q h = ap (map as_read) (sym (append_nil q.items))
  serve-told (waits es ∷ turns) q h =
      let full = deliver_all es q in
      let later = reached turns in
      let all_in : full.items ≡ q.items ++ es =
        deliver_all-items es q (omega (arith, h, length-append es later)) in
      let left : Queue = record full { items = drop 1 full.items } in
      let sizes : length full.items ≡ length q.items + length es =
        ap length all_in ∙ length-append q.items es in
      let rest =
        serve-told turns left
          (ground (arith, h, length-append es later, sizes, drop_shorter full.items)) in
      append_assoc (told (next_chunk dump dump_variables full.items)) _ _
      ∙ ap (λ l. told (next_chunk dump dump_variables full.items) ++ l)
          (rest ∙ map-append as_read left.items later)
      ∙ sym (append_assoc (told (next_chunk dump dump_variables full.items)) _ _)
      ∙ ap (λ l. l ++ map as_read later) (next_told full.items)
      ∙ sym (map-append as_read full.items later)
      ∙ ap (map as_read) (ap (λ l. l ++ later) all_in ∙ append_assoc q.items es later)
    where
      drop_shorter : (items : List Event) → length (drop 1 items) ≤ length items
      drop_shorter [] = omega arith
      drop_shorter (e ∷ items) = omega arith

  module _ (one_line : (e : Event) → all_chars is_inline (dump e) ≡ true)
      (one_line_variables : (v : Variables) → all_chars is_inline (dump_variables v) ≡ true) where
    next-IsInline : (items : List Event) → IsInline (next_chunk dump dump_variables items)
    next-IsInline [] = tt
    next-IsInline (e ∷ es) = (type_text-is_inline e.detail, one_line e)

    serve-IsInline :
        (turns : List Turn) (q : Queue) → All IsInline (serve dump dump_variables turns q).0
    unfolding serve
    serve-IsInline [] q = tt
    serve-IsInline (gone ∷ turns) q = tt
    serve-IsInline (waits es ∷ turns) q =
        let full = deliver_all es q in
        (next-IsInline full.items, serve-IsInline turns (record full { items = drop 1 full.items }))

    generator-IsInline :
        (variables : Result Variables) (turns : List Turn) (q : Queue)
        → All IsInline (generator dump dump_variables variables turns q).0
    unfolding generator
    generator-IsInline (ok v) turns q =
        ((unfold all_chars in refl, one_line_variables v), serve-IsInline turns q)
    generator-IsInline (err e) turns q = serve-IsInline turns q

    generator-told :
        (variables : Result Variables) (turns : List Turn) (q : Queue)
        → length q.items + length (reached turns) ≤ 200
        → told_all (generator dump dump_variables variables turns q).0
            ++ map as_read (generator dump dump_variables variables turns q).1.items
          ≡ greeted variables ++ map as_read (q.items ++ reached turns)
    unfolding generator
    generator-told (ok v) turns q h =
        ap (λ l. ("node.variables.snapshot", dump_variables v) ∷ l) (serve-told turns q h)
    generator-told (err e) turns q h = serve-told turns q h

    -- What a client of the old event stream reads, and then what is left in its queue, are the first
    -- snapshot, if it could be taken, and all events that reached the queue, in their order, while
    -- they are at most 200 in all: none is lost, repeated or changed. The JSON
    -- texts hold no line end.
    pub generator-reads :
        (variables : Result Variables) (turns : List Turn) (q : Queue)
        → length q.items + length (reached turns) ≤ 200
        → read_events (body (generator dump dump_variables variables turns q).0)
            ++ map as_read (generator dump dump_variables variables turns q).1.items
          ≡ greeted variables ++ map as_read (q.items ++ reached turns)
    generator-reads variables turns q h =
        ap (λ l. l ++ map as_read (generator dump dump_variables variables turns q).1.items)
          (read_events-body _ (generator-IsInline variables turns q))
        ∙ generator-told variables turns q h
