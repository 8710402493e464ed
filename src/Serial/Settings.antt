-- ===== src/Serial/Settings.antt =====
-- The settings that an opened port has.
use uav_mission_server.Prelude.{
  ℕ, ◌+◌, ◌*◌, ◌≤◌, ◌<◌, ◌≡◌, ◌≢◌, refl, ◌⊎◌, inl, inr, arith, Bool, true, false, ◌&&◌, List, [],
  ◌∷◌, Option, none, some, Option-cases, Bool-cases,
}
use uav_mission_server.Prelude.Int.{ℤ, pos}
use uav_mission_server.Serial.{
  SerialParity, SerialStopBits, SerialConfig, CharSize, cs5, cs6, cs7, cs8, Termios, invalid,
  closed_again, opened, Calls, tenths, e_parity_none, e_parity_odd, e_parity_even, e_stop_bits_one,
  e_stop_bits_two, convert_baudrate, select_speed, baudrates, settings, serial_open, open_flags,
}

-- What a terminal with these flags does, read from them.
abbrev parity_of : Bool → Bool → SerialParity
parity_of false odd = e_parity_none
parity_of true true = e_parity_odd
parity_of true false = e_parity_even

abbrev stop_bits_of : Bool → SerialStopBits
stop_bits_of false = e_stop_bits_one
stop_bits_of true = e_stop_bits_two

abbrev bits_of : CharSize → ℤ
bits_of cs5 = pos 5
bits_of cs6 = pos 6
bits_of cs7 = pos 7
bits_of cs8 = pos 8

abbrev pub config_of : Termios → SerialConfig
config_of tio = record {
  baudrate = tio.ospeed;
  parity = parity_of tio.parenb tio.parodd;
  data_bits = bits_of tio.csize;
  stop_bits = stop_bits_of tio.cstopb;
}

abbrev pub OneOf : ℕ → List ℕ → Type 0
OneOf b [] = ⊥
OneOf b (c ∷ cs) = (b ≡ c) ⊎ OneOf b cs

-- The speeds that termios has on Linux, without `B0`.
abbrev speeds_of_termios : List ℕ
speeds_of_termios =
    50 ∷ 75 ∷ 110 ∷ 134 ∷ 150 ∷ 200 ∷ 300 ∷ 600 ∷ 1200 ∷ 1800 ∷ 2400 ∷ 4800 ∷ 9600 ∷ 19200 ∷ 38400
    ∷ 57600 ∷ 115200 ∷ 230400 ∷ 460800 ∷ 500000 ∷ 576000 ∷ 921600 ∷ 1000000 ∷ 1152000 ∷ 1500000
    ∷ 2000000 ∷ 2500000 ∷ 3000000 ∷ 3500000 ∷ 4000000 ∷ []

-- The switch has all of them.
baudrates-termios : speeds_of_termios ≡ baudrates
baudrates-termios = refl

-- What a terminal of Linux can do: one of the speeds, no parity or an odd or even one, five to eight
-- bits, and one or two stop bits.
pub record Supported (cfg : SerialConfig) : Type 0 where
  pub speed : OneOf cfg.baudrate speeds_of_termios
  pub parity :
      (cfg.parity ≡ e_parity_none) ⊎ (cfg.parity ≡ e_parity_odd) ⊎ (cfg.parity ≡ e_parity_even)
  pub data_bits : (n : ℕ) × (cfg.data_bits ≡ pos n) × (5 ≤ n) × (n ≤ 8)
  pub stop_bits : (cfg.stop_bits ≡ e_stop_bits_one) ⊎ (cfg.stop_bits ≡ e_stop_bits_two)

-- No flow control in software or hardware, the receiver on, and the modem lines ignored; VMIN is
-- one, and VTIME the timeout rounded up to tenths of a second.
pub record Raw (timeout : ℕ) (tio : Termios) : Type 0 where
  pub flow : (tio.ixon ≡ false) × (tio.ixoff ≡ false) × (tio.crtscts ≡ false)
  pub control : (tio.clocal ≡ true) × (tio.cread ≡ true)
  pub speeds : tio.ispeed ≡ tio.ospeed
  pub minimum : tio.vmin ≡ 1
  pub wait : (timeout ≤ tio.vtime * 100) × (tio.vtime * 100 < timeout + 100)

select_speed-OneOf :
    (cases : List ℕ) (b : ℕ) → select_speed cases b ≢ 0 → OneOf b cases × (select_speed cases b ≡ b)
select_speed-OneOf [] b h = absurd (h refl)
select_speed-OneOf (c ∷ cases) b h = ground (arith, select_speed-OneOf cases b)

OneOf-select_speed : (cases : List ℕ) (b : ℕ) → OneOf b cases → select_speed cases b ≡ b
OneOf-select_speed [] b h = elim h [ ]
OneOf-select_speed (c ∷ cases) b h = ground (arith, OneOf-select_speed cases b)

settings-config :
    (cfg : SerialConfig) (br : ℕ) (timeout : ℤ) (tio : Termios)
    → settings cfg br timeout ≡ some tio
    → br ≡ cfg.baudrate
    → config_of tio ≡ cfg
unfolding settings
settings-config cfg br timeout tio e h = ground arith

vtime_waits : (n : ℕ) → n ≤ 25500 → (n ≤ tenths (pos n) * 100) × (tenths (pos n) * 100 < n + 100)
vtime_waits n h = (omega arith, omega arith)

settings-flags :
    (cfg : SerialConfig) (br : ℕ) (timeout : ℤ) (tio : Termios)
    → settings cfg br timeout ≡ some tio
    → ((tio.ixon ≡ false) × (tio.ixoff ≡ false) × (tio.crtscts ≡ false))
      × ((tio.clocal ≡ true) × (tio.cread ≡ true))
      × (tio.ispeed ≡ tio.ospeed)
      × (tio.vmin ≡ 1)
      × (tio.vtime ≡ tenths timeout)
unfolding settings
settings-flags cfg br timeout tio e = ground arith

settings-Raw :
    (cfg : SerialConfig) (br timeout : ℕ) (tio : Termios)
    → timeout ≤ 25500
    → settings cfg br (pos timeout) ≡ some tio
    → Raw timeout tio
settings-Raw cfg br timeout tio h e =
    let (flow, control, speeds, minimum, wait) = settings-flags cfg br (pos timeout) tio e in
    record {
      flow = flow;
      control = control;
      speeds = speeds;
      minimum = minimum;
      wait = rw wait (vtime_waits timeout h);
    }

convert_baudrate-supported :
    (b : ℕ) → convert_baudrate b ≢ 0 → OneOf b baudrates × (convert_baudrate b ≡ b)
unfolding convert_baudrate
convert_baudrate-supported b h = select_speed-OneOf baudrates b h

supported-convert_baudrate : (b : ℕ) → OneOf b baudrates → (convert_baudrate b ≡ b) × (b ≢ 0)
unfolding convert_baudrate
supported-convert_baudrate b h = (OneOf-select_speed baudrates b h, λ e. ground arith)

-- What `open` gave for the path.
abbrev pub Descriptor : Calls → Option (List ℕ) → ℕ → Type 0
Descriptor calls none fd = ⊥
Descriptor calls (some path) fd =
    calls.descriptor path (record { o_rdwr = true; o_noctty = true; o_nonblock = true }) ≡ some fd

-- How `serial_open` comes to an open port.
opened_by :
    (calls : Calls) (port_s : Option (List ℕ)) (cfg : SerialConfig) (timeout : ℤ) (fd : ℕ)
    (tio : Termios)
    → serial_open calls port_s cfg timeout ≡ opened fd tio
    → (convert_baudrate cfg.baudrate ≢ 0)
      × Descriptor calls port_s fd
      × (settings cfg (convert_baudrate cfg.baudrate) timeout ≡ some tio)
unfolding serial_open
opened_by calls none cfg timeout fd tio e = absurd (impossible e)
  where
    impossible : invalid ≡ opened fd tio → ⊥
    impossible q = cc
opened_by calls (some port_s) cfg timeout fd tio e = ground arith

-- For a timeout of up to 25.5 seconds, an open port has the settings that the configuration asks for,
-- read back from its flags, without flow control, with VMIN one and with VTIME the timeout rounded up
-- to a tenth of a second; and it is the one that was opened for its path, without blocking.
pub serial_open-config_of :
    (calls : Calls) (port_s : Option (List ℕ)) (cfg : SerialConfig) (timeout fd : ℕ) (tio : Termios)
    → timeout ≤ 25500
    → serial_open calls port_s cfg (pos timeout) ≡ opened fd tio
    → Descriptor calls port_s fd × (config_of tio ≡ cfg) × Raw timeout tio
serial_open-config_of calls port_s cfg timeout fd tio h e =
    let (supported, descriptor, set) = opened_by calls port_s cfg (pos timeout) fd tio e in
    (
      descriptor,
      settings-config cfg (convert_baudrate cfg.baudrate) (pos timeout) tio set
          (convert_baudrate-supported cfg.baudrate supported).1,
      settings-Raw cfg (convert_baudrate cfg.baudrate) timeout tio h set,
    )

abbrev working : ℕ → Calls
working fd = record { descriptor = λ path flags. some fd; speed_set = true; attr_set = true }

-- A descriptor is not lost: where `open` gave one, the port stays open under it or is closed again,
-- unless the speed is not supported or no path was given, when `open` is not called.
serial_open_closes :
    (calls : Calls) (port_s : List ℕ) (cfg : SerialConfig) (timeout : ℤ) (fd : ℕ)
    → calls.descriptor port_s open_flags ≡ some fd
    → OneOf cfg.baudrate baudrates
    → ((tio : Termios) × (serial_open calls (some port_s) cfg timeout ≡ opened fd tio))
      ⊎ (serial_open calls (some port_s) cfg timeout ≡ closed_again fd)
unfolding serial_open
serial_open_closes calls port_s cfg timeout fd e h =
    let (known, positive) = supported-convert_baudrate cfg.baudrate h in
    elim (Option-cases (settings cfg (convert_baudrate cfg.baudrate) timeout)) [
      | inl p ↦ inr (ground arith)
      | inr (tio, p) ↦ elim (Bool-cases (calls.speed_set && calls.attr_set)) [
        | inl q ↦ inl (tio, ground arith)
        | inr q ↦ inr (ground arith)
      ]
    ]
