-- ===== src/Models/Surface.antt =====
-- The commands that `command_for` can build.
use asl3_api.Prelude.{
  ℕ, String, Bool, true, false, ◌&&◌, some, [], ◌∷◌, format, get, all_chars, is_digit, leb, str_eq,
  ◌≡◌, refl, arith, Option-cases, inl, inr, all_chars-format, all_chars_mono, ◌∙◌, sym,
}
use asl3_api.Errors.{ok, err, problem, Result-cases, >>=-returned}
use asl3_api.Models.{Kind, link_node, unlink_node, unlink_all, announce, Request, is_node}
use asl3_api.Models.Command.{
  validate_node, Mode, transceive, monitor, LinkBody, AnnouncementKind, identify, status,
  link_request, announcement_request, is_unsupported, command_body, command_for, ilink_mode,
  announcement,
}

-- The v1 control surface: a link in one of two modes, an unlink, all links off, two announcements.
pub data Surface : Type 0 where
  link : Mode → (target : String) → Surface
  unlink : (target : String) → Surface
  unlink_every : Surface
  say : AnnouncementKind → Surface

abbrev pub body_of : Surface → String
body_of (link transceive target) = format ("ilink " ∷ "3" ∷ " " ∷ target ∷ [])
body_of (link monitor target) = format ("ilink " ∷ "2" ∷ " " ∷ target ∷ [])
body_of (unlink target) = format ("ilink 11 " ∷ target ∷ [])
body_of unlink_every = "ilink 6"
body_of (say identify) = "status 1"
body_of (say status) = "ilink 5"

abbrev pub HasValidTarget : Surface → Type 0
HasValidTarget (link mode target) = is_node target ≡ true
HasValidTarget (unlink target) = is_node target ≡ true
HasValidTarget _ = Unit

validate_node_ok : (s : String) {t : String} → validate_node s ≡ ok t → (is_node s ≡ true) × (t ≡ s)
unfolding validate_node
validate_node_ok s e = (ground arith, ground arith)

pub link_request_ok : (r : Request) {b : LinkBody} → link_request r ≡ ok b → is_node b.node ≡ true
unfolding link_request
link_request_ok r e = elim (Option-cases (get r "node")) [
  | inl missing ↦ absurd (ground (arith, missing))
  | inr (node, found) ↦ ground (arith, found)
]

ok_inj : {a b : String} → ok a ≡ ok b → a ≡ b
ok_inj e = ground arith

link_body :
    (mode : Mode) (node : String)
    → format ("ilink " ∷ ilink_mode mode ∷ " " ∷ node ∷ []) ≡ body_of (link mode node)
link_body transceive node = refl
link_body monitor node = refl

say_body : (kind : AnnouncementKind) {b : String} → b ≡ announcement kind → b ≡ body_of (say kind)
say_body identify e = e
say_body status e = e

command_body-Surface :
    (kind : Kind) (request : Request) {body : String}
    → command_body kind request ≡ ok body
    → (a : Surface) × HasValidTarget a × (body ≡ body_of a)
unfolding command_body
command_body-Surface link_node request e =
    let (b, validated, built) =
      >>=-returned (link_request request)
        (λ b. ok (format ("ilink " ∷ ilink_mode b.mode ∷ " " ∷ b.node ∷ []))) e in
    (
      link b.mode b.node,
      link_request_ok request validated,
      sym (ok_inj built) ∙ link_body b.mode b.node,
    )
command_body-Surface unlink_node request e = elim (Option-cases (get request "node")) [
  | inl missing ↦ absurd (ground (arith, missing))
  | inr (target, found) ↦ elim (Result-cases (validate_node target)) [
    | inl (node, valid) ↦
        let (is_valid, same) = validate_node_ok target valid in
        (unlink target, is_valid, ground (arith, found, valid, same))
    | inr (x, refused) ↦ absurd (ground (arith, found, refused))
  ]
]
command_body-Surface unlink_all request e = (unlink_every, tt, ground arith)
command_body-Surface announce request e = elim (Result-cases (announcement_request request)) [
  | inl (kind, valid) ↦ (say kind, tt, say_body kind (ground (arith, valid)))
  | inr (x, refused) ↦ absurd (ground (arith, refused))
]

module _ (node : String) (kind : Kind) (request : Request) where
  -- Each command that is built is one of the surface, for a valid node and a valid target.
  pub command_for-Surface :
      {command : String}
      → command_for node kind request ≡ ok command
      → (a : Surface) × (is_node node ≡ true)
        × HasValidTarget a
        × (command ≡ format ("rpt cmd " ∷ node ∷ " " ∷ body_of a ∷ []))
  unfolding command_for
  command_for-Surface e = elim (Result-cases (validate_node node)) [
    | inr (x, refused) ↦ absurd (ground (arith, refused))
    | inl (n, valid) ↦ elim (Result-cases (command_body kind request)) [
      | inr (x, refused) ↦ absurd (ground (arith, valid, refused))
      | inl (body, built) ↦
          let (a, target, same) = command_body-Surface kind request built in
          (a, (validate_node_ok node valid).0, target, ground (arith, valid, built, same))
    ]
  ]

abbrev pub is_printable : ℕ → Bool
is_printable n = leb b' ' n && leb n b'~'

is_node-printable : (s : String) → is_node s ≡ true → all_chars is_printable s ≡ true
unfolding is_node all_chars
is_node-printable String.[] h = refl
is_node-printable (String.◌∷◌ c s) h =
    ground (arith, all_chars_mono is_digit is_printable (λ n d. ground arith) s)

literal_printable : (a : Surface) → HasValidTarget a → all_chars is_printable (body_of a) ≡ true
literal_printable (link transceive t) h =
    all_chars-format is_printable _
      (unfold all_chars in (refl, (refl, (refl, (is_node-printable t h, tt)))))
literal_printable (link monitor t) h =
    all_chars-format is_printable _
      (unfold all_chars in (refl, (refl, (refl, (is_node-printable t h, tt)))))
literal_printable (unlink t) h =
    all_chars-format is_printable _ (unfold all_chars in (refl, (is_node-printable t h, tt)))
literal_printable unlink_every h = unfold all_chars in refl
literal_printable (say identify) h = unfold all_chars in refl
literal_printable (say status) h = unfold all_chars in refl

-- A command that is built is printable ASCII, so it holds no line break that could end its AMI
-- header.
pub command_for-is_printable :
    (node : String) (kind : Kind) (request : Request) {command : String}
    → command_for node kind request ≡ ok command
    → all_chars is_printable command ≡ true
command_for-is_printable node kind request e =
    let (a, valid, target, same) = command_for-Surface node kind request e in
    rw same (
      all_chars-format is_printable _ (
        unfold all_chars in
        (refl, (is_node-printable node valid, (refl, (literal_printable a target, tt))))))

-- A kind that is not supported is refused with the stable problem, from every valid node.
pub command_for_unsupported :
    (node k : String) (request : Request)
    → is_node node ≡ true
    → get request "kind" ≡ some k
    → str_eq k "identify" ≡ false
    → str_eq k "status" ≡ false
    → command_for node announce request ≡ err (problem 422 "UNSUPPORTED_ANNOUNCEMENT")
unfolding command_for command_body validate_node is_unsupported
command_for_unsupported node k request v g i s = ground (arith, g)
