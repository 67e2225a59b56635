-- ===== src/Tests/Software.antt =====
-- The version of an Asterisk build.
use asl3_api.Prelude.{true, some, [], ◌∷◌, count, get, all_chars, ◌≡◌, refl}
use asl3_api.Transport.{Message, one}
use asl3_api.Software.{
  text_of, scalar, matches_from, is_asterisk_version, is_tail_char, parse_asterisk_version,
}
use asl3_api.Software.Laws.{parse_asterisk_version_ok}

abbrev settings_response : Message
settings_response = ("response", one "Success") ∷ ("asteriskversion", one "22.5.2+asl3-3.6.3") ∷ []

parsed : parse_asterisk_version (some settings_response) ≡ some "22.5.2+asl3-3.6.3"
unfolding parse_asterisk_version scalar text_of is_asterisk_version matches_from get all_chars count
parsed = refl

parse_asterisk_version_ok_example :
    (get settings_response "response" ≡ some (one "Success"))
    × (get settings_response "asteriskversion" ≡ some (one "22.5.2+asl3-3.6.3"))
    × (is_asterisk_version "22.5.2+asl3-3.6.3" ≡ true)
    × (all_chars is_tail_char "22.5.2+asl3-3.6.3" ≡ true)
parse_asterisk_version_ok_example = parse_asterisk_version_ok settings_response parsed
