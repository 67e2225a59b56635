-- ===== src/Service/Evidence.antt =====
-- `Platform.software_evidence` of vnext/service.py, for what the version probe returns or raises.
use asl3_api.Prelude.{some, if◌then◌else◌}
use asl3_api.Errors.{Result, ok, err}
use asl3_api.Transport.{Message}
use asl3_api.Observation.Snapshot.{is_caught}
use asl3_api.Software.{Entry, evidence, undetected}

unfoldable pub software_evidence : Result (Message × Message) → Result (Entry × Entry)
software_evidence (ok (asterisk, app_rpt)) = ok (evidence (some asterisk) (some app_rpt))
software_evidence (err e) = if is_caught e then ok undetected else err e
