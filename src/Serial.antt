-- ===== src/Serial.antt =====
-- src/serial.c on POSIX: opening and configuring the serial port, reading and writing. Results of the
-- system calls are arguments.
pub mod Settings
pub mod Complete
pub mod Tests
use uav_mission_server.Prelude.{
  ℕ, zero, suc, ◌+◌, ◌-◌, ◌/◌, ◌%◌, ◌^◌, Bool, true, false, ◌||◌, List, [], ◌∷◌, ◌++◌, Option, none,
  some, length, take, drop, ltb, ◌==◌, if◌then◌else◌,
}
use uav_mission_server.Prelude.Options.{◌>>=◌}
use uav_mission_server.Prelude.Int.{ℤ, pos, negsuc}

pub data SerialParity : Type 0 where
  e_parity_none e_parity_odd e_parity_even e_parity_mark e_parity_space : SerialParity

pub data SerialStopBits : Type 0 where
  e_stop_bits_one e_stop_bits_one_half e_stop_bits_two : SerialStopBits

pub record SerialConfig : Type 0 where
  pub baudrate : ℕ
  pub parity : SerialParity
  pub data_bits : ℤ
  pub stop_bits : SerialStopBits

-- The character sizes of `CSIZE`.
pub data CharSize : Type 0 where
  cs5 cs6 cs7 cs8 : CharSize

-- The parts of `struct termios` that the source sets. The speed `Bn` is `n`, and 0 is `B0`.
pub record Termios : Type 0 where
  pub ispeed : ℕ
  pub ospeed : ℕ
  pub ixon : Bool
  pub ixoff : Bool
  pub clocal : Bool
  pub cread : Bool
  pub cstopb : Bool
  pub parenb : Bool
  pub parodd : Bool
  pub crtscts : Bool
  pub csize : CharSize
  pub vmin : ℕ
  pub vtime : ℕ

-- `memset`; CS5 is 0.
abbrev cleared : Termios
cleared = record {
  ispeed = 0;
  ospeed = 0;
  ixon = false;
  ixoff = false;
  clocal = false;
  cread = false;
  cstopb = false;
  parenb = false;
  parodd = false;
  crtscts = false;
  csize = cs5;
  vmin = 0;
  vtime = 0;
}

-- The cases of the switch.
abbrev pub baudrates : List ℕ
baudrates =
    50 ∷ 75 ∷ 110 ∷ 134 ∷ 150 ∷ 200 ∷ 300 ∷ 600 ∷ 1200 ∷ 1800 ∷ 2400 ∷ 4800 ∷ 9600 ∷ 19200 ∷ 38400
    ∷ 57600 ∷ 115200 ∷ 230400 ∷ 460800 ∷ 500000 ∷ 576000 ∷ 921600 ∷ 1000000 ∷ 1152000 ∷ 1500000
    ∷ 2000000 ∷ 2500000 ∷ 3000000 ∷ 3500000 ∷ 4000000 ∷ []

abbrev pub select_speed : List ℕ → ℕ → ℕ
select_speed [] baudrate = 0
select_speed (b ∷ cases) baudrate = if baudrate == b then b else select_speed cases baudrate

unfoldable pub convert_baudrate : ℕ → ℕ
convert_baudrate baudrate = select_speed baudrates baudrate

-- Each part of the configuration changes the flags, or is refused.
abbrev pub set_stop_bits : SerialStopBits → Termios → Option Termios
set_stop_bits e_stop_bits_one tio = some (record tio { cstopb = false })
set_stop_bits e_stop_bits_two tio = some (record tio { cstopb = true })
set_stop_bits e_stop_bits_one_half tio = none

abbrev pub set_parity : SerialParity → Termios → Option Termios
set_parity e_parity_none tio = some (record tio { parenb = false })
set_parity e_parity_odd tio = some (record tio { parenb = true; parodd = true })
set_parity e_parity_even tio = some (record tio { parenb = true; parodd = false })
set_parity e_parity_mark tio = none
set_parity e_parity_space tio = none

abbrev size_of : ℕ → Option CharSize
size_of n =
    if n == 5
    then some cs5
    else if n == 6
    then some cs6
    else if n == 7
    then some cs7
    else if n == 8
    then some cs8
    else none

abbrev pub set_data_bits : ℤ → Termios → Option Termios
set_data_bits (negsuc n) tio = none
set_data_bits (pos n) tio = do size ← size_of n; some (record tio { csize = size })

-- `(timeout + 99) / 100` in tenths of a second, as the byte that `c_cc` holds.
abbrev pub tenths : ℤ → ℕ
tenths (negsuc n) = 0
tenths (pos n) = (n + 99) / 100 % 2 ^ 8

-- The settings for a configuration, from `memset` to `tcsetattr`.
unfoldable pub settings : SerialConfig → ℕ → ℤ → Option Termios
settings cfg br timeout =
    let speed : Termios = record cleared {
      ispeed = br;
      ospeed = br;
      ixon = false;
      ixoff = false;
      clocal = true;
      cread = true;
    } in
    do
      stopped ← set_stop_bits cfg.stop_bits speed
      checked ← set_parity cfg.parity stopped
      sized ← set_data_bits cfg.data_bits (record checked { crtscts = false })
      some (record sized { vmin = 1; vtime = tenths timeout })

-- The flags of `open` that the source uses.
pub record OpenFlags : Type 0 where
  pub o_rdwr : Bool
  pub o_noctty : Bool
  pub o_nonblock : Bool

abbrev pub open_flags : OpenFlags
open_flags = record { o_rdwr = true; o_noctty = true; o_nonblock = true }

-- What the system calls of `serial_open` give: the descriptor of `open` for a path and flags, the two
-- calls that set the speed, `tcsetattr`.
pub record Calls : Type 0 where
  pub descriptor : List ℕ → OpenFlags → Option ℕ
  pub speed_set : Bool
  pub attr_set : Bool

-- What became of the port: nothing was opened, it was opened and closed again, or it is open with
-- these settings. `serial_open` returns the descriptor in the last case only.
pub data Opening : Type 0 where
  invalid : Opening
  closed_again : ℕ → Opening
  opened : ℕ → Termios → Opening

abbrev pub configure : Option Termios → Bool → ℕ → Opening
configure none attr_set fd = closed_again fd
configure (some tio) attr_set fd = if attr_set then opened fd tio else closed_again fd

abbrev pub open_port : Calls → Option Termios → Option ℕ → Opening
open_port calls tio none = invalid
open_port calls tio (some fd) =
    if calls.speed_set then configure tio calls.attr_set fd else closed_again fd

unfoldable pub serial_open : Calls → Option (List ℕ) → SerialConfig → ℤ → Opening
serial_open calls none cfg timeout = invalid
serial_open calls (some port_s) cfg timeout =
    let br = convert_baudrate cfg.baudrate in
    if br == 0
    then invalid
    else open_port calls (settings cfg br timeout) (calls.descriptor port_s open_flags)

-- `read` into a buffer of `size` bytes, whose result is what was stored, `none` for a negative one.
pub serial_read : (ℕ → Option (List ℕ)) → ℕ → Option (List ℕ)
serial_read read size = read size

-- How `serial_write` ends, with the bytes that went out; or `write` is called on past the results given.
pub data Writing : Type 0 where
  complete failed : List ℕ → Writing
  pending : Writing

-- The loop of `serial_write`: a result `none` of `write` is a negative one.
pub write_all : List (Option ℕ) → List ℕ → ℕ → List ℕ → Writing
write_all [] buf written out = pending
write_all (none ∷ results) buf written out = failed out
write_all (some w ∷ results) buf written out =
    let out' = out ++ take w (drop written buf) in
    let rest = write_all results buf (written + w) out' in
    if written + w == length buf then complete out' else rest

unfoldable pub serial_write : List (Option ℕ) → List ℕ → Writing
unfolding write_all
serial_write results buf = write_all results buf 0 []
