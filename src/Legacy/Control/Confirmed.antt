-- ===== src/Legacy/Control/Confirmed.antt =====
-- The loops that wait for a link to come or to go.
use asl3_api.Prelude.{String, Bool, not, List, if◌then◌else◌, ◌≡◌}
use asl3_api.Errors.{Result, ok}
use asl3_api.Models.{DirectLink}
use asl3_api.Legacy.Control.{is_linked}

-- The links show what is waited for.
abbrev pub is_seen : String → Bool → List DirectLink → Bool
is_seen node wanted links = if wanted then is_linked node links else not (is_linked node links)

abbrev pub Returns : Result (List DirectLink) → Type 0
Returns r = (links : List DirectLink) × (r ≡ ok links)
