-- ===== src/Models.antt =====
-- The public types of vnext/models.py. Literal types are data types, pydantic models records.
pub mod Command
pub mod Surface
use asl3_api.Prelude.{
  ℕ, String, Bool, true, false, ◌&&◌, Option, none, some, List, [], code, all_chars, count,
  is_digit, leb, Dict,
}

-- `re.fullmatch(r"^[1-9][0-9]{0,5}$", value)`
unfoldable pub is_node : String → Bool
is_node String.[] = false
is_node (String.◌∷◌ c s) =
    (leb b'1' (code c) && leb (code c) b'9') && (all_chars is_digit s && leb (count s) 5)

pub data Kind : Type 0 where
  link_node unlink_node unlink_all announce : Kind

-- The letters T, R, L and C, or the text UNKNOWN.
pub data LinkMode : Type 0 where
  letter_t letter_r letter_l letter_c unknown : LinkMode

pub data ConnectionStatus : Type 0 where
  established connecting : ConnectionStatus

pub data StateStatus : Type 0 where
  complete state_unknown : StateStatus

pub data TrafficState : Type 0 where
  active clear unknown : TrafficState

pub data DispatchStatus : Type 0 where
  queued dispatch_started acknowledged rejected not_dispatched outcome_unknown : DispatchStatus

pub data EffectStatus : Type 0 where
  pending not_attempted observed_satisfied observed_partial observed_unsatisfied : EffectStatus
  not_applicable unknown : EffectStatus

pub record DirectLink : Type 0 where
  pub node : String
  pub allstar_node : Option String
  pub mode : LinkMode
  pub keyed : Bool
  pub connection_status : ConnectionStatus

pub record NodeState : Type 0 where
  pub node : String
  pub observed_at : String
  pub connection_epoch : Option String
  pub state_status : StateStatus
  pub traffic_state : TrafficState
  pub is_complete : Bool
  pub rx_keyed : Option Bool
  pub tx_keyed : Option Bool
  pub direct_links : Option (List DirectLink)
  pub reasons : List String

-- `request: dict`; each caller builds it from texts.
abbrev pub Request : Type 0
Request = Dict String

pub record Operation : Type 0 where
  pub id : String
  pub node : String
  pub kind : Kind
  pub request : Request
  pub credential : String
  pub created_at : String
  pub updated_at : String
  pub dispatch_status : DispatchStatus
  pub effect_status : EffectStatus
  pub terminal : Bool
  pub semantic_error : Option String
  pub evidence : Option NodeState
