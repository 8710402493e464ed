-- ===== src/Config/Tests.antt =====
-- Configuration files at known inputs.
use uav_mission_server.Prelude.{ℕ, ◌≡◌, ◌⊎◌, refl, arith, false, List, [], ◌∷◌, some, codes, set}
use uav_mission_server.Prelude.Int.{pos}
use uav_mission_server.Prelude.Libc.{str_eq, atoi}
use uav_mission_server.Prelude.Outcomes.{ok, exited}
use uav_mission_server.Serial.{e_parity_none, e_stop_bits_one}
use uav_mission_server.Config.Yaml.{
  Event, scalar, stream_end, other, pairs, others, load, read_param,
}
use uav_mission_server.Config.SerialPort.{PortConfig, serial_params, finish, load_serial_configs}
use uav_mission_server.Config.Rc.{
  ConfigRc, no_channels, channel_key, max_field, rc_params, get_rc_config,
}
use uav_mission_server.Config.Rc.Channels.{Becomes, read_param-get_rc_config}

-- configs/serial.yaml, with a text for the stop bits that is reported only.
abbrev pub file : List (List ℕ × List ℕ)
file =
    (codes "port", codes "/dev/ttyTHS0")
    ∷ (codes "baudrate", codes "57600")
    ∷ (codes "parity", codes "N")
    ∷ (codes "data-bits", codes "8")
    ∷ (codes "stop-bits", codes "3")
    ∷ []

abbrev pub expected : PortConfig
expected = record {
  path = some (codes "/dev/ttyTHS0");
  config = record {
    baudrate = 57600;
    parity = e_parity_none;
    data_bits = pos 8;
    stop_bits = e_stop_bits_one;
  };
}

pub loads :
    load_serial_configs (some (others 3 (pairs file (others 2 (stream_end ∷ []))))) ≡ ok expected
unfolding load_serial_configs load serial_params finish str_eq atoi
loads = refl

-- Without data bits nothing is loaded.
empty_data_bits :
    load_serial_configs (some (scalar (codes "parity") ∷ scalar (codes "N") ∷ stream_end ∷ []))
    ≡ exited
unfolding load_serial_configs load serial_params finish str_eq
empty_data_bits = refl

abbrev radio : List Event
radio = other ∷ scalar (codes "ch9_max") ∷ scalar (codes "1927") ∷ stream_end ∷ []

abbrev ninth : List ConfigRc
ninth = set no_channels 8 (record { min = pos 0; mid = pos 0; max = pos 1927; reverse = false })

sets_ninth : read_param (rc_params (channel_key 9 max_field)) (codes "1927") no_channels ≡ ok ninth
unfolding rc_params str_eq atoi
sets_ninth = refl

read_param-get_rc_config_example :
    (c : ConfigRc) × (c' : ConfigRc) × (get_rc_config (pos 9) no_channels ≡ ok c)
    × (get_rc_config (pos 9) ninth ≡ ok c')
    × Becomes max_field (codes "1927") c c'
    × ((◌≡◌ {A = ℕ} 8 9) ⊎ (get_rc_config (pos 8) ninth ≡ get_rc_config (pos 8) no_channels))
read_param-get_rc_config_example =
    read_param-get_rc_config 9 8 max_field (codes "1927") no_channels ninth (omega arith)
      (omega arith) (omega arith) (omega arith) refl sets_ninth
