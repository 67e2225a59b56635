-- ===== src/Events.antt =====
-- The events of links: ami_event_listener.py (Listener) and event_handler.py (Webhooks), with the sets
-- of texts that both compute with.
pub mod Listener
pub mod Recent
pub mod View
pub mod Replay
pub mod Webhooks
pub mod Notified
use asl3_api.Prelude.{
  String, Bool, true, false, not, ◌&&◌, ◌||◌, List, [], ◌∷◌, any, str_eq, eq_iff, if◌then◌else◌,
  ◌≡◌, refl, sym, ap, arith, inl, inr, Bool-cases,
}

-- A set is a list of its members, in some order.
abbrev pub has : String → List String → Bool
has n = any (str_eq n)

-- `{n for n in ns}`
abbrev pub to_set : List String → List String
to_set [] = []
to_set (n ∷ ns) = let rest = to_set ns in if has n ns then rest else n ∷ rest

-- `xs - ys`
abbrev pub minus : List String → List String → List String
minus [] ys = []
minus (x ∷ xs) ys = let rest = minus xs ys in if has x ys then rest else x ∷ rest

has_same : (n x : String) (ys : List String) → str_eq n x ≡ true → has n ys ≡ has x ys
has_same n x ys e = ap (λ s. has s ys) ((eq_iff n x).0 e)

pub has-to_set : (n : String) (ns : List String) → has n (to_set ns) ≡ has n ns
has-to_set n [] = refl
has-to_set n (m ∷ ns) = ground (arith, has-to_set n ns, has_same n m ns)

pub has-minus :
    (n : String) (xs ys : List String) → has n (minus xs ys) ≡ has n xs && not (has n ys)
has-minus n [] ys = refl
has-minus n (x ∷ xs) ys = ground (arith, has-minus n xs ys, has_same n x ys)

-- The same members.
abbrev pub IsSame : List String → List String → Type 0
IsSame xs ys = (n : String) → has n xs ≡ has n ys

-- A set after members were added, or taken out, one by one.
abbrev pub with_all : List String → List String → List String
with_all [] vs = vs
with_all (n ∷ ns) vs = with_all ns (n ∷ vs)

abbrev pub without_all : List String → List String → List String
without_all [] vs = vs
without_all (n ∷ ns) vs = without_all ns (minus vs (n ∷ []))

pub has-with_all :
    (m : String) (ns vs : List String) → has m (with_all ns vs) ≡ has m vs || has m ns
has-with_all m [] vs = ground arith
has-with_all m (n ∷ ns) vs = ground (arith, has-with_all m ns (n ∷ vs))

pub has-without_all :
    (m : String) (ns vs : List String) → has m (without_all ns vs) ≡ has m vs && not (has m ns)
has-without_all m [] vs = ground arith
has-without_all m (n ∷ ns) vs =
    ground (arith, has-without_all m ns (minus vs (n ∷ [])), has-minus m vs (n ∷ []))

module _ (arrange : List String → List String) where
  -- The nodes that a set has after the changes from `known` to `current`, which begins with `vs`.
  unfoldable pub after : List String → List String → List String → List String
  after current known vs =
      without_all (arrange (minus known current)) (with_all (arrange (minus current known)) vs)

  pub after-IsSame :
      ((ns : List String) → IsSame (arrange ns) ns)
      → (current known vs : List String) → IsSame vs known
      → IsSame (after current known vs) current
  unfolding after
  after-IsSame arranged current known vs h n = ground (
    arith,
    has-without_all n (arrange (minus known current)) (with_all (arrange (minus current known)) vs),
    has-with_all n (arrange (minus current known)) vs,
    arranged (minus known current) n,
    arranged (minus current known) n,
    has-minus n known current,
    has-minus n current known,
    h n,
  )
