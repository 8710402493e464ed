-- ===== src/UartServer/Text.antt =====
-- The texts of src/uart_server.c for its log: `ipaddr_to_string`, `parity_to_string`,
-- `stop_bits_to_string` and `current_timestamp_as_string`.
pub mod Address
pub mod Times
pub mod Tests
use uav_mission_server.Prelude.{
  ℕ, ◌+◌, ◌*◌, ◌/◌, ◌%◌, ◌^◌, Bool, true, false, List, [], ◌∷◌, ◌++◌, length, ltb, leb, codes,
  String, if◌then◌else◌, Option, none, some, replicate, ◌-◌,
}
use uav_mission_server.Prelude.Libc.{digits}
use uav_mission_server.RtspStream.Timestamp.{Tm, padded}
use uav_mission_server.Serial.{
  SerialParity, e_parity_none, e_parity_odd, e_parity_even, e_parity_mark, e_parity_space,
  SerialStopBits, e_stop_bits_one, e_stop_bits_one_half, e_stop_bits_two,
}

pub parity_to_string : SerialParity → String
parity_to_string e_parity_none = "None"
parity_to_string e_parity_odd = "Odd"
parity_to_string e_parity_even = "Even"
parity_to_string e_parity_mark = "Mark"
parity_to_string e_parity_space = "Space"

pub stop_bits_to_string : SerialStopBits → String
stop_bits_to_string e_stop_bits_one = "1"
stop_bits_to_string e_stop_bits_one_half = "1.5"
stop_bits_to_string e_stop_bits_two = "2"

-- `(addr >> 8 * k) & 0xff`
abbrev pub byte_of : ℕ → ℕ → ℕ
byte_of addr k = addr / 2 ^ (8 * k) % 2 ^ 8

abbrev pub dotted : ℕ → List ℕ
dotted addr =
    digits 9 (byte_of addr 3)
    ++ b'.'
      ∷ (digits 9 (byte_of addr 2)
          ++ b'.' ∷ (digits 9 (byte_of addr 1) ++ b'.' ∷ digits 9 (byte_of addr 0)))

-- `sizeof("255.255.255.255")`
abbrev pub ip_size : ℕ
ip_size = 16

-- `snprintf` gives the length of the whole text.
unfoldable pub ipaddr_to_string : ℕ → List ℕ
ipaddr_to_string addr = if leb ip_size (length (dotted addr)) then codes "Unknown" else dotted addr

-- `sizeof("DD/mm/YYYY HH:MM:SS")`
abbrev pub time_size : ℕ
time_size = 20

-- The text of "%d/%m/%Y %H:%M:%S".
abbrev pub time_text : Tm → List ℕ
time_text sm =
    padded 2 sm.tm_mday
    ++ b'/'
      ∷ (padded 2 (1 + sm.tm_mon)
          ++ b'/'
            ∷ (digits 9 (1900 + sm.tm_year)
                ++ b' '
                  ∷ (padded 2 sm.tm_hour
                      ++ b':' ∷ (padded 2 sm.tm_min ++ b':' ∷ padded 2 sm.tm_sec))))

-- The result and the buffer: where the text does not fit, the result is 0 and the buffer holds
-- anything.
abbrev pub strftime : ℕ → List ℕ → List ℕ → ℕ × List ℕ
strftime size text anything = if ltb (length text) size then (length text, text) else (0, anything)

abbrev pub checked_time : ℕ × List ℕ → List ℕ
checked_time (written, text) = if leb time_size written then [] else text

-- `sm` is what `localtime` gives, `none` for NULL.
pub current_timestamp_as_string : Option Tm → List ℕ → List ℕ
current_timestamp_as_string none anything = []
current_timestamp_as_string (some sm) anything =
    checked_time (strftime time_size (time_text sm) anything)
