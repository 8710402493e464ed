-- ===== src/Config/Rc.antt =====
-- The radio channels of src/config.c: `load_rc_configs` and the getters.
pub mod Keys
pub mod Channels
use uav_mission_server.Prelude.{
  ℕ, zero, suc, ◌+◌, ◌-◌, ◌/◌, ◌%◌, Bool, true, false, ◌||◌, List, [], ◌∷◌, ◌++◌, Option, none,
  some, if◌then◌else◌, codes, String, get_elem?, set, replicate, ltb, leb,
}
use uav_mission_server.Prelude.Int.{ℤ, pos, negsuc, ltb_ℤ}
use uav_mission_server.Prelude.Libc.{str_eq, atoi}
use uav_mission_server.Prelude.Outcomes.{Outcome, ok, exited, fault, ◌>>=◌}
use uav_mission_server.Config.Yaml.{Event, Params, load, as_bool}

-- `config_rc_t`.
pub record ConfigRc : Type 0 where
  pub min : ℤ
  pub mid : ℤ
  pub max : ℤ
  pub reverse : Bool

-- `rc_channels` before it is loaded.
abbrev pub no_channels : List ConfigRc
no_channels = replicate 18 (record { min = pos 0; mid = pos 0; max = pos 0; reverse = false })

pub data Field : Type 0 where
  min_field mid_field max_field reverse_field : Field

abbrev pub suffix : Field → String
suffix min_field = "_min"
suffix mid_field = "_mid"
suffix max_field = "_max"
suffix reverse_field = "_reverse"

-- A channel number as the preprocessor writes it.
abbrev pub channel_digits : ℕ → List ℕ
channel_digits n = if ltb n 10 then (b'0' + n) ∷ [] else (b'0' + n / 10) ∷ (b'0' + n % 10) ∷ []

abbrev pub channel_key : ℕ → Field → List ℕ
channel_key n field = codes "ch" ++ channel_digits n ++ codes (suffix field)

-- `READ_RC_CONFIG` of one channel.
abbrev pub field_of : ℕ → List ℕ → Option Field
field_of n key =
    if str_eq key (channel_key n min_field)
    then some min_field
    else if str_eq key (channel_key n mid_field)
    then some mid_field
    else if str_eq key (channel_key n max_field)
    then some max_field
    else if str_eq key (channel_key n reverse_field)
    then some reverse_field
    else none

abbrev pub found_first : Option Field → ℕ → Option (ℕ × Field) → Option (ℕ × Field)
found_first none n rest = rest
found_first (some field) n rest = some (n, field)

-- The chain over the channels from `n` on.
abbrev pub find_channel : ℕ → ℕ → List ℕ → Option (ℕ × Field)
find_channel zero n key = none
find_channel (suc left) n key = found_first (field_of n key) n (find_channel left (suc n) key)

abbrev pub set_field : Field → List ℕ → ConfigRc → Outcome ConfigRc
set_field min_field value c = ok (record c { min = atoi value })
set_field mid_field value c = ok (record c { mid = atoi value })
set_field max_field value c = ok (record c { max = atoi value })
set_field reverse_field value c = as_bool value >>= λ b. ok (record c { reverse = b })

-- `rc_channels[channel_num - 1]`; an index outside the array is a fault.
abbrev pub set_channel :
    ℕ → Field → List ℕ → Option ConfigRc → List ConfigRc → Outcome (List ConfigRc)
set_channel i field value none channels = fault
set_channel i field value (some c) channels =
    set_field field value c >>= λ c'. ok (set channels i c')

abbrev pub rc_setter :
    Option (ℕ × Field) → Option (List ℕ → List ConfigRc → Outcome (List ConfigRc))
rc_setter none = none
rc_setter (some (n, field)) =
    some (λ value channels. set_channel (n - 1) field value (get_elem? channels (n - 1)) channels)

unfoldable pub rc_params : Params (List ConfigRc)
rc_params key = rc_setter (find_channel 18 1 key)

unfoldable pub load_rc_configs : Option (List Event) → Outcome (List ConfigRc)
unfolding rc_params
load_rc_configs none = exited
load_rc_configs (some events) = load rc_params events no_channels

abbrev pub channel_at : Option ConfigRc → Outcome ConfigRc
channel_at none = fault
channel_at (some c) = ok c

unfoldable pub get_rc_config : ℤ → List ConfigRc → Outcome ConfigRc
get_rc_config (negsuc n) channels = exited
get_rc_config (pos n) channels =
    if ltb n 1 || ltb 18 n then exited else channel_at (get_elem? channels (n - 1))

unfoldable pub get_rc_config_min : ℤ → List ConfigRc → Outcome ℤ
unfolding get_rc_config
get_rc_config_min rc_channel channels = get_rc_config rc_channel channels >>= λ c. ok c.min

unfoldable pub get_rc_config_mid : ℤ → List ConfigRc → Outcome ℤ
unfolding get_rc_config
get_rc_config_mid rc_channel channels = get_rc_config rc_channel channels >>= λ c. ok c.mid

unfoldable pub get_rc_config_max : ℤ → List ConfigRc → Outcome ℤ
unfolding get_rc_config
get_rc_config_max rc_channel channels = get_rc_config rc_channel channels >>= λ c. ok c.max

unfoldable pub get_rc_config_reverse : ℤ → List ConfigRc → Outcome Bool
unfolding get_rc_config
get_rc_config_reverse rc_channel channels = get_rc_config rc_channel channels >>= λ c. ok c.reverse
