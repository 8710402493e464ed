-- ===== src/Config/SerialPort.antt =====
-- `load_serial_configs` and `get_serial_port_config` of src/config.c.
pub mod Loaded
use uav_mission_server.Prelude.{
  ℕ, ◌+◌, ◌^◌, Bool, true, false, ◌||◌, List, [], ◌∷◌, Option, none, some, if◌then◌else◌, codes,
}
use uav_mission_server.Prelude.Int.{ℤ, pos, ltb_ℤ, word}
use uav_mission_server.Prelude.Libc.{str_eq, atoi}
use uav_mission_server.Prelude.Outcomes.{Outcome, ok, exited, fault, ◌>>=◌}
use uav_mission_server.Serial.{
  SerialParity, e_parity_none, e_parity_odd, e_parity_even, e_parity_mark, e_parity_space,
  SerialStopBits, e_stop_bits_one, e_stop_bits_one_half, e_stop_bits_two, SerialConfig,
}
use uav_mission_server.Config.Yaml.{Event, Params, load}

-- `serial_cfg`, where a port that was not given is NULL, with the two local strings of the loader.
pub record Loading : Type 0 where
  pub port : Option (List ℕ)
  pub baudrate : ℤ
  pub data_bits : ℤ
  pub parity : List ℕ
  pub stop_bits : List ℕ

abbrev pub cleared : Loading
cleared = record { port = none; baudrate = pos 0; data_bits = pos 0; parity = []; stop_bits = [] }

unfoldable pub serial_params : Params Loading
serial_params key =
    if str_eq key (codes "port")
    then some (λ value s. ok (record s { port = some value }))
    else if str_eq key (codes "baudrate")
    then some (λ value s. ok (record s { baudrate = atoi value }))
    else if str_eq key (codes "parity")
    then some (λ value s. ok (record s { parity = value }))
    else if str_eq key (codes "data-bits")
    then some (λ value s. ok (record s { data_bits = atoi value }))
    else if str_eq key (codes "stop-bits")
    then some (λ value s. ok (record s { stop_bits = value }))
    else none

-- The structure that `get_serial_port_config` fills, with the path.
pub record PortConfig : Type 0 where
  pub path : Option (List ℕ)
  pub config : SerialConfig

abbrev pub parity_of : List ℕ → Outcome SerialParity
parity_of parity =
    if str_eq (codes "N") parity
    then ok e_parity_none
    else if str_eq (codes "O") parity
    then ok e_parity_odd
    else if str_eq (codes "E") parity
    then ok e_parity_even
    else if str_eq (codes "M") parity
    then ok e_parity_mark
    else if str_eq (codes "S") parity
    then ok e_parity_space
    else exited

abbrev pub check_data_bits : ℤ → Outcome ℤ
check_data_bits n = if ltb_ℤ n (pos 5) || ltb_ℤ (pos 8) n then exited else ok n

-- A text that is none of the three is reported, and leaves the field as it was, 0.
abbrev pub stop_bits_of : List ℕ → SerialStopBits
stop_bits_of text =
    if str_eq text (codes "1.5")
    then e_stop_bits_one_half
    else if str_eq text (codes "1")
    then e_stop_bits_one
    else if str_eq text (codes "2")
    then e_stop_bits_two
    else e_stop_bits_one

unfoldable pub finish : Loading → Outcome PortConfig
finish s = do
  parity ← parity_of s.parity
  data_bits ← check_data_bits s.data_bits
  ok (record {
    path = s.port;
    config = record {
      baudrate = word 32 s.baudrate;
      parity = parity;
      data_bits = data_bits;
      stop_bits = stop_bits_of s.stop_bits;
    };
  })

-- The file is `none` if it cannot be opened. Into `get_serial_port_config`, which copies the fields.
unfoldable pub load_serial_configs : Option (List Event) → Outcome PortConfig
unfolding finish
load_serial_configs none = exited
load_serial_configs (some events) = load serial_params events cleared >>= finish
