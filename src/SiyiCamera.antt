-- ===== src/SiyiCamera.antt =====
-- src/siyi_camera.c: the messages of the SIYI gimbal camera, packed byte by byte into a buffer on
-- the stack and handed to `send`. A message function gives the bytes that it sends; `none` is a
-- write or a read outside the buffer. The bytes of a `uint16_t` in memory are those of a
-- little-endian host.
pub mod Frame
pub mod Layout
pub mod Receiver
pub mod Delivery
pub mod Operations
pub mod Tests
use uav_mission_server.Prelude.{
  ℕ, ◌+◌, ◌-◌, ◌/◌, ◌%◌, ◌^◌, Bool, true, false, List, [], ◌∷◌, Option, none, some, length, set,
  replicate, ltb, if◌then◌else◌,
}
use uav_mission_server.Prelude.Int.{ℤ, word}
use uav_mission_server.Crc16.{crc16_calculate}

-- A piece of code that writes into `buf`.
abbrev pub Writer : Type 0
Writer = List ℕ → Option (List ℕ)

infixl 5 ◌>>◌
abbrev pub ◌>>◌ : Writer → Writer → Writer
◌>>◌ first second buf = elim (first buf) [ none ↦ none | some buf' ↦ second buf' ]

-- `buf[i] = v`, with the conversion to `uint8_t`.
abbrev pub store : ℕ → ℕ → Writer
store i v buf = if ltb i (length buf) then some (set buf i (v % 2 ^ 8)) else none

-- `memcpy` of a `uint16_t` to `buf + i`.
abbrev pub store16 : ℕ → ℕ → Writer
store16 i v = store i (v % 2 ^ 8) >> store (i + 1) (v / 2 ^ 8)

-- `uint16_t crc16 = crc16_calculate(buf, len); memcpy(buf + i, &crc16, 2);`
abbrev pub store_crc : ℕ → ℕ → Writer
store_crc i len buf = elim (crc16_calculate buf len) [ none ↦ none | some crc ↦ store16 i crc buf ]

abbrev pub siyi_header_len : ℕ
siyi_header_len = 8

abbrev pub siyi_msg_overhead : ℕ
siyi_msg_overhead = siyi_header_len + 2

-- The payload starts at `buf + 8`.
pub siyi_cam_pack_common : Bool → ℕ → ℕ → ℕ → Writer
siyi_cam_pack_common ctrl data_len seq cmd_id = do
  store 0 0x55
  store 1 0x66
  store 2 (if ctrl then 0 else 1)
  store 3 (data_len % 2 ^ 8)
  store 4 (data_len / 2 ^ 8)
  store 5 (seq % 2 ^ 8)
  store 6 (seq / 2 ^ 8)
  store 7 cmd_id

abbrev payload : ℕ → ℕ
payload i = siyi_header_len + i

pub siyi_cam_manual_zoom : ℕ → ℕ → Option (List ℕ)
unfolding siyi_cam_pack_common
siyi_cam_manual_zoom zoom_integer zoom_decimal =
    (do
      siyi_cam_pack_common false 2 0 0x0f
      store (payload 0) zoom_integer
      store (payload 1) zoom_decimal
      store_crc (payload 2) (siyi_msg_overhead + 2 - 2))
      (replicate (siyi_msg_overhead + 2) 0)

pub siyi_cam_gimbal_rotate_speed : ℤ → ℤ → Option (List ℕ)
unfolding siyi_cam_pack_common
siyi_cam_gimbal_rotate_speed yaw pitch =
    (do
      siyi_cam_pack_common false 2 0 0x07
      store (payload 0) (word 8 yaw)
      store (payload 1) (word 8 pitch)
      store_crc (payload 2) (siyi_msg_overhead + 2 - 2))
      (replicate (siyi_msg_overhead + 2) 0)

pub siyi_cam_gimbal_rotate : ℤ → ℤ → Option (List ℕ)
unfolding siyi_cam_pack_common
siyi_cam_gimbal_rotate yaw pitch =
    (do
      siyi_cam_pack_common false 4 0 0x0e
      store16 (payload 0) (word 16 yaw)
      store16 (payload 2) (word 16 pitch)
      store_crc (payload 4) (siyi_msg_overhead + 4 - 2))
      (replicate (siyi_msg_overhead + 4) 0)

pub siyi_cam_gimbal_centering : Option (List ℕ)
unfolding siyi_cam_pack_common
siyi_cam_gimbal_centering =
    (do
      siyi_cam_pack_common false 1 0 0x08
      store (payload 0) 1
      store_crc (payload 1) (siyi_msg_overhead + 1 - 2))
      (replicate (siyi_msg_overhead + 1) 0)
