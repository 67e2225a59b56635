-- ===== src/Transport/Session.antt =====
-- `AMISession.action` of vnext/transport.py: the write of an action, and its response.
use asl3_api.Prelude.{
  ℕ, zero, suc, String, Bool, true, not, ◌&&◌, ◌||◌, Option, none, some, List, [], ◌∷◌, ◌++◌, map,
  any, Dict, get, put, has, join, format, ◌==◌, all_chars, if◌then◌else◌,
}
use asl3_api.Errors.{
  value_error, protocol_error, runtime_error, incomplete_read_error, Result, ok, err,
}
use asl3_api.Effects.{Effect, pure, lift, gets, modify, ◌>>=◌, ◌>>◌, require}
use asl3_api.Transport.{Message, field_is}

-- A session, with the payloads that it has written.
pub record Session : Type 0 where
  pub control_attempted : Bool
  pub written : List String

-- `"\r" in value or "\n" in value`
abbrev pub is_unbroken : ℕ → Bool
is_unbroken n = not (n == 13 || n == 10)

abbrev pub header : String × String → String
header (key, value) = format (key ∷ ": " ∷ value ∷ [])

abbrev pub payload : Dict String → String
payload fields = format (join "\r\n" (map header fields) ∷ "\r\n\r\n" ∷ [])

-- The part of `action` before the write. The barrier is what `before_write()` does.
unfoldable pub cross : Option (Result (Unit {0})) → Effect Session (Unit {0})
cross none = pure tt
cross (some barrier) = do
  attempted ← gets (λ (s : Session). s.control_attempted)
  require attempted (runtime_error "A control session cannot be reused")
  modify (λ (s : Session). record s { control_attempted = true })
  lift barrier

-- `action` as far as the write, with a fresh ActionID.
unfoldable pub send : String → Dict String → Option (Result (Unit {0})) → Effect Session (Unit {0})
unfolding cross
send action_id fields before_write = do
  require (any (λ e. not (all_chars is_unbroken e.1)) (put fields "ActionID" action_id))
      (value_error "AMI header injection refused")
  cross before_write
  modify (λ (s : Session). record s {
    written = s.written ++ payload (put fields "ActionID" action_id) ∷ [];
  })

-- The loop over at most `budget` frames. The session ends with the frames that the peer has sent.
unfoldable pub await_response : ℕ → String → List (Result Message) → Result Message
await_response zero action_id frames =
    err (protocol_error "AMI response not received within frame budget")
await_response (suc budget) action_id [] = err incomplete_read_error
await_response (suc budget) action_id (err e ∷ frames) = err e
await_response (suc budget) action_id (ok m ∷ frames) =
    let later = await_response budget action_id frames in
    if has m "event" && not (has m "response")
    then later
    else if not (field_is (get m "actionid") action_id)
    then err (protocol_error "Stale or mismatched AMI ActionID")
    else ok m
