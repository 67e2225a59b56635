-- ===== src/Tests/Directory.antt =====
-- A directory of two nodes, fetched between failures.
use asl3_api.Prelude.{ℕ, none, some, List, [], ◌∷◌, get, put, split, ◌≡◌, refl}
use asl3_api.Errors.{Result, ok, err, timeout_error}
use asl3_api.Software.{strip, strip_right}
use asl3_api.Directory.{
  init, Answer, fetch, fetch_all, lookup, info_of, splitlines, read_line, read_lines, part,
}
use asl3_api.Directory.Latest.{last_text, last_for, entry_in, lookup-fetch_all}

unfoldable directory : Unit {0}
unfolding fetch fetch_all lookup splitlines read_line read_lines part split strip strip_right get
    put last_text last_for
directory = tt

abbrev answers : List (Result Answer × ℕ)
answers =
    (err timeout_error, 1)
    ∷ (
      ok (record {
        status = 200;
        text = ok "2001|W1AW||Newington\n\n2002| W2B \r\n2001|W1AW|club|";
      }),
      2,
    )
    ∷ (ok (record { status = 503; text = ok "" }), 3)
    ∷ []

cleaned_test :
    lookup (fetch_all answers init) "2001"
    ≡ record { node = "2001"; callsign = some "W1AW"; description = some "club"; location = none }
unfolding directory
cleaned_test = refl

lookup-fetch_all_example :
    lookup (fetch_all answers init) "2001" ≡ info_of "2001" (entry_in "2001" (last_text answers))
lookup-fetch_all_example = lookup-fetch_all answers "2001"
