-- ===== src/Agent/Lifespan.antt =====
-- `lifespan` of asl_agent.py: what it calls, in which order, when calls raise.
use asl3_api.Prelude.{
  ℕ, Bool, true, false, not, ◌&&◌, List, [], ◌∷◌, ◌++◌, any, ◌==◌, if◌then◌else◌, ◌≡◌, arith,
}

pub data Step : Type 0 where
  validates_config starts_runtime connects_client starts_handler starts_directory starts_listener
        starts_monitoring serves :
      Step
  closes_runtime stops_monitoring stops_listener stops_handler stops_directory disconnects_client :
      Step

abbrev pub number_of : Step → ℕ
number_of validates_config = 0
number_of starts_runtime = 1
number_of connects_client = 2
number_of starts_handler = 3
number_of starts_directory = 4
number_of starts_listener = 5
number_of starts_monitoring = 6
number_of serves = 7
number_of closes_runtime = 8
number_of stops_monitoring = 9
number_of stops_listener = 10
number_of stops_handler = 11
number_of stops_directory = 12
number_of disconnects_client = 13

abbrev pub has_step : Step → List Step → Bool
has_step s = any (λ t. number_of t == number_of s)

-- `fails` says which calls raise.
module _ (fails : Step → Bool) where
  -- A block: the calls up to the first that raises.
  abbrev pub block : List Step → List Step
  block [] = []
  block (s ∷ rest) = let later = block rest in if fails s then s ∷ [] else s ∷ later

  abbrev pub before_serving : Bool → List Step
  before_serving webhooks_enabled =
      if webhooks_enabled then starts_monitoring ∷ serves ∷ [] else serves ∷ []

  -- The `try`. An exception of the client's connection is caught.
  unfoldable pub body : Bool → List Step
  body webhooks_enabled =
      connects_client
      ∷ block
          (starts_handler ∷ starts_directory ∷ starts_listener ∷ before_serving webhooks_enabled)

  -- The `finally`; the monitoring task is stopped if it was created.
  unfoldable pub cleanup : Bool → List Step
  cleanup monitoring = block (
      closes_runtime
      ∷ ((if monitoring then stops_monitoring ∷ [] else [])
          ++ stops_listener ∷ stops_handler ∷ stops_directory ∷ disconnects_client ∷ []))

  -- The calls of a lifespan, the failed ones included.
  unfoldable pub lifespan : Bool → List Step
  unfolding body cleanup
  lifespan webhooks_enabled =
      if fails validates_config
      then validates_config ∷ []
      else if fails starts_runtime
      then validates_config ∷ starts_runtime ∷ []
      else validates_config
        ∷ starts_runtime
        ∷ (body webhooks_enabled
            ++ cleanup (
                has_step starts_monitoring (body webhooks_enabled)
                && not (fails starts_monitoring)))

  abbrev pub is_started : Bool
  is_started = not (fails validates_config) && not (fails starts_runtime)

  -- The monitoring task was created.
  abbrev pub is_monitored : Bool → Bool
  is_monitored webhooks_enabled =
      webhooks_enabled
      && not
          (any fails (starts_handler ∷ starts_directory ∷ starts_listener ∷ starts_monitoring ∷ []))

  -- The AMI connection is opened only after the configuration was validated and the runtime started,
  -- and exactly then the runtime is closed, whatever raises. The cleanup reaches its end, where the
  -- client disconnects, exactly when none of its calls before that raises, whatever raised earlier.
  pub lifespan_cleanup :
      (webhooks_enabled : Bool)
      → (has_step connects_client (lifespan webhooks_enabled) ≡ is_started)
        × (has_step closes_runtime (lifespan webhooks_enabled) ≡ is_started)
        × (has_step disconnects_client (lifespan webhooks_enabled)
            ≡ is_started
              && (not (is_monitored webhooks_enabled && fails stops_monitoring)
                  && not (
                      any fails
                        (closes_runtime ∷ stops_listener ∷ stops_handler ∷ stops_directory ∷ []))))
  unfolding lifespan body cleanup
  lifespan_cleanup true = (ground arith, ground arith, ground arith)
  lifespan_cleanup false = (ground arith, ground arith, ground arith)
