-- ===== src/Config/SerialPort/Loaded.antt =====
-- Which files configure the serial port, and how.
use uav_mission_server.Prelude.{ℕ, ◌≤◌, ◌≡◌, List, some, if◌then◌else◌, codes}
use uav_mission_server.Prelude.Int.{pos, word}
use uav_mission_server.Prelude.Libc.{str_eq, atoi}
use uav_mission_server.Prelude.Outcomes.{ok}
use uav_mission_server.Config.Yaml.{last}
use uav_mission_server.Config.SerialPort.{Loading, PortConfig, parity_of, stop_bits_of}

-- What the checks behind the loop let through.
abbrev pub Finished : Loading → PortConfig → Type 0
Finished s c =
    (c.path ≡ s.port)
    × (c.config.baudrate ≡ word 32 s.baudrate)
    × (parity_of s.parity ≡ ok c.config.parity)
    × ((n : ℕ) × (s.data_bits ≡ pos n) × (c.config.data_bits ≡ pos n) × (5 ≤ n) × (n ≤ 8))
    × (c.config.stop_bits ≡ stop_bits_of s.stop_bits)

-- One key with its value.
Reads : List ℕ → List ℕ → Loading → Loading → Type 0
Reads key value s t =
    (t.port ≡ (if str_eq key (codes "port") then some value else s.port))
    × (t.baudrate ≡ (if str_eq key (codes "baudrate") then atoi value else s.baudrate))
    × (t.parity ≡ (if str_eq key (codes "parity") then value else s.parity))
    × (t.data_bits ≡ (if str_eq key (codes "data-bits") then atoi value else s.data_bits))
    × (t.stop_bits ≡ (if str_eq key (codes "stop-bits") then value else s.stop_bits))

-- What the parameters are behind a file.
abbrev pub Set : List (List ℕ × List ℕ) → Loading → Loading → Type 0
Set file s t =
    (t.port ≡ last "port" some file s.port)
    × (t.baudrate ≡ last "baudrate" atoi file s.baudrate)
    × (t.parity ≡ last "parity" (λ v. v) file s.parity)
    × (t.data_bits ≡ last "data-bits" atoi file s.data_bits)
    × (t.stop_bits ≡ last "stop-bits" (λ v. v) file s.stop_bits)
