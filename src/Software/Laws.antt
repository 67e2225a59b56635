-- ===== src/Software/Laws.antt =====
-- A version that is detected is what the node said.

use asl3_api.Prelude.{
  ℕ, suc, String, Bool, true, false, Option, none, some, get, all_chars, eq_iff, ◌≡◌, refl, ap, ◌∙◌,
  arith, Option-cases, inl, inr,
}
use asl3_api.Transport.{Field, one, many, Message}
use asl3_api.Software.{
  text_of, scalar, is_tail_char, matches_from, is_asterisk_version, parse_asterisk_version,
}

matches_from_lem :
    (dotted : Bool) (digits : ℕ) (s : String)
    → matches_from dotted digits s ≡ true
    → all_chars is_tail_char s ≡ true
unfolding matches_from all_chars
matches_from_lem dotted digits String.[] h = refl
matches_from_lem dotted digits (String.◌∷◌ c s) h =
    ground (arith, matches_from_lem dotted (suc digits) s, matches_from_lem true 0 s)

text_of-some : (f : Option Field) {v : String} → text_of f ≡ some v → f ≡ some (one v)
unfolding text_of
text_of-some none e = absurd (ground arith)
text_of-some (some (many ss)) e = absurd (ground arith)
text_of-some (some (one s)) {v} e =
    let same : s ≡ v = ground arith in ap (λ (t : String). some (one t)) same

-- An Asterisk version that is reported is the text of the header of a successful response, in the
-- pattern of a version, of letters, digits and separators alone.
pub parse_asterisk_version_ok :
    (m : Message) {v : String}
    → parse_asterisk_version (some m) ≡ some v
    → (get m "response" ≡ some (one "Success"))
      × (get m "asteriskversion" ≡ some (one v))
      × (is_asterisk_version v ≡ true)
      × (all_chars is_tail_char v ≡ true)
unfolding parse_asterisk_version scalar is_asterisk_version
parse_asterisk_version_ok m {v} e = elim (Option-cases (text_of (get m "response"))) [
  | inl missing ↦ absurd (ground (arith, missing))
  | inr (answer, answered) ↦ elim (Option-cases (text_of (get m "asteriskversion"))) [
    | inl missing ↦ absurd (ground (arith, answered, missing))
    | inr (w, found) ↦
        let success : answer ≡ "Success" =
          ground (arith, answered, found, eq_iff answer "Success") in
        let same : w ≡ v = ground (arith, answered, found) in
        let matched : matches_from false 0 v ≡ true = ground (arith, answered, found) in
        (
          text_of-some (get m "response") answered ∙ ap (λ (t : String). some (one t)) success,
          text_of-some (get m "asteriskversion") found ∙ ap (λ (t : String). some (one t)) same,
          matched,
          matches_from_lem false 0 v matched,
        )
  ]
]
