-- ===== src/Crc16/Tests.antt =====
-- The CRC of crc16.c at known inputs.
use uav_mission_server.Prelude.{ℕ, ◌≡◌, ◌≢◌, refl, some, arith, List, [], ◌∷◌}
use uav_mission_server.Crc16.{crc16_calculate, crc16_tab}
use uav_mission_server.Crc16.Reference.{crc_reference}
use uav_mission_server.Crc16.Correct.{crc16_calculate-crc_reference}
use uav_mission_server.Crc16.Detects.{crc16_calculate_detects}

-- "123456789"
abbrev check_input : List ℕ
check_input = 0x31 ∷ 0x32 ∷ 0x33 ∷ 0x34 ∷ 0x35 ∷ 0x36 ∷ 0x37 ∷ 0x38 ∷ 0x39 ∷ []

check_value : crc16_calculate check_input 9 ≡ some 0x31c3
unfolding crc16_calculate crc16_tab
check_value = refl

crc16_calculate-crc_reference_example :
    crc16_calculate check_input 9 ≡ some (crc_reference 0 check_input)
crc16_calculate-crc_reference_example = crc16_calculate-crc_reference check_input [] (omega arith)

crc16_calculate_detects_example :
    crc16_calculate (0x55 ∷ 0x66 ∷ 0x01 ∷ []) 3 ≢ crc16_calculate (0x55 ∷ 0x67 ∷ 0x01 ∷ []) 3
crc16_calculate_detects_example =
    crc16_calculate_detects (0x55 ∷ []) 0x66 0x67 (0x01 ∷ []) (omega arith) (omega arith)
      (omega arith) (omega arith) (omega arith)
