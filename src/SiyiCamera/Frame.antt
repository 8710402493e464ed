-- ===== src/SiyiCamera/Frame.antt =====
-- The frame of the SIYI protocol, as a whole: start mark, control byte, data length, sequence
-- number, command, data, CRC of all that. Numbers of two bytes have the low byte first.
use uav_mission_server.Prelude.{ℕ, ◌/◌, ◌%◌, ◌^◌, List, [], ◌∷◌, ◌++◌, length}
use uav_mission_server.Crc16.Reference.{crc_reference}

abbrev pub little_endian : ℕ → List ℕ
little_endian w = (w % 2 ^ 8) ∷ (w / 2 ^ 8) ∷ []

-- What the CRC is taken of.
abbrev pub body : ℕ → List ℕ → List ℕ
body cmd_id payload =
    0x55 ∷ 0x66 ∷ 1 ∷ little_endian (length payload) ++ little_endian 0 ++ cmd_id ∷ payload

abbrev pub frame : ℕ → List ℕ → List ℕ
frame cmd_id payload = body cmd_id payload ++ little_endian (crc_reference 0 (body cmd_id payload))
