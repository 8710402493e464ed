-- ===== src/Serial/Tests.antt =====
-- The serial port at known inputs.
use uav_mission_server.Prelude.{
  ℕ, Option, ◌≡◌, refl, arith, true, false, [], ◌∷◌, none, some, codes,
}
use uav_mission_server.Prelude.Int.{pos}
use uav_mission_server.Serial.{
  SerialConfig, Termios, e_parity_odd, e_parity_mark, e_stop_bits_two, cs7, Calls, opened,
  serial_open, settings, convert_baudrate, serial_write, failed,
}
use uav_mission_server.Serial.Settings.{config_of, Raw, serial_open-config_of}
use uav_mission_server.Serial.Complete.{Written, serial_write-Written}

abbrev seven_odd : SerialConfig
seven_odd = record {
  baudrate = 57600;
  parity = e_parity_odd;
  data_bits = pos 7;
  stop_bits = e_stop_bits_two;
}

abbrev with_mark : SerialConfig
with_mark = record seven_odd { parity = e_parity_mark }

abbrev calls : Calls
calls = record { descriptor = λ path flags. some 4; speed_set = true; attr_set = true }

abbrev expected : Termios
expected = record {
  ispeed = 57600;
  ospeed = 57600;
  ixon = false;
  ixoff = false;
  clocal = true;
  cread = true;
  cstopb = true;
  parenb = true;
  parodd = true;
  crtscts = false;
  csize = cs7;
  vmin = 1;
  vtime = 10;
}

opens_57600 :
    serial_open calls (some (codes "/dev/ttyTHS0")) seven_odd (pos 1000) ≡ opened 4 expected
unfolding serial_open settings convert_baudrate
opens_57600 = refl

serial_open-config_of_example :
    (◌≡◌ {A = Option ℕ} (some 4) (some 4)) × (config_of expected ≡ seven_odd) × Raw 1000 expected
serial_open-config_of_example =
    serial_open-config_of calls (some (codes "/dev/ttyTHS0")) seven_odd 1000 4 expected
      (omega arith) opens_57600

serial_write-Written_example :
    Written (1 ∷ 2 ∷ 3 ∷ []) (serial_write (some 2 ∷ some 1 ∷ none ∷ []) (1 ∷ 2 ∷ 3 ∷ []))
serial_write-Written_example =
    serial_write-Written (some 2 ∷ some 1 ∷ none ∷ []) (1 ∷ 2 ∷ 3 ∷ [])
      (omega arith, omega arith, (omega arith, omega arith, tt)) (omega arith) (omega arith)

-- With O_NONBLOCK, a full buffer ends a write in the middle.
partial : serial_write (some 2 ∷ none ∷ []) (1 ∷ 2 ∷ 3 ∷ []) ≡ failed (1 ∷ 2 ∷ [])
unfolding serial_write
partial = refl
