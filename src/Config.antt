-- ===== src/Config.antt =====
-- `Config.get` of config.py: the YAML document and its dotted keys.
-- Mapping keys are texts.
pub mod Credentials
pub mod Validate
pub mod Valid
pub mod Properties
use asl3_api.Prelude.{ℕ, String, Bool, List, [], ◌∷◌, split, str_eq, if◌then◌else◌}

-- `negsuc n` is -(n + 1).
pub data ℤ : Type 0 where
  pos : ℕ → ℤ
  negsuc : ℕ → ℤ

-- A YAML float: `finite n d` is n / (d + 1).
pub data Float : Type 0 where
  finite : ℤ → ℕ → Float
  infinite : (is_negative : Bool) → Float
  nan : Float

mutual
  pub data Value : Type 0 where
    null : Value
    bool : Bool → Value
    int : ℤ → Value
    float : Float → Value
    str : String → Value
    seq : Items → Value
    dict : Entries → Value

  pub data Items : Type 0 where
    nil : Items
    cons : Value → Items → Items

  pub data Entries : Type 0 where
    end : Entries
    entry : String → Value → Entries → Entries

-- `value.get(k, default)`
unfoldable pub get_entry : Entries → String → Value → Value
get_entry end k default = default
get_entry (entry j v rest) k default = if str_eq j k then v else get_entry rest k default

unfoldable pub get_path : List String → Value → Value → Value
unfolding get_entry
get_path [] value default = value
get_path (k ∷ ks) (dict d) default = get_path ks (get_entry d k default) default
get_path (k ∷ ks) _ default = default

-- `Config.get(key, default)`
unfoldable pub get : Value → String → Value → Value
unfolding get_path
get config key default = get_path (split b'.' key) config default
