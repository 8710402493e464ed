-- ===== src/SiyiCamera/Layout.antt =====
-- Each message function sends a frame of the protocol.
use native.Mathlib.Nat.{mod-eq_of_lt}
use uav_mission_server.Prelude.{
  ℕ, ◌/◌, ◌%◌, ◌^◌, ◌<◌, ◌≡◌, ◌∙◌, arith, List, [], ◌∷◌, ◌++◌, Option, some,
}
use uav_mission_server.Prelude.Int.{word-lt, ℤ, word}
use uav_mission_server.Crc16.{crc16_calculate}
use uav_mission_server.Crc16.Reference.{crc_reference}
use uav_mission_server.Crc16.Correct.{IsBytes, crc16_calculate-crc_reference}
use uav_mission_server.Crc16.Detects.{crc_reference-lt}
use uav_mission_server.SiyiCamera.{
  store_crc, store16, siyi_cam_manual_zoom, siyi_cam_gimbal_rotate_speed, siyi_cam_gimbal_rotate,
  siyi_cam_gimbal_centering,
}
use uav_mission_server.SiyiCamera.Frame.{little_endian, body, frame}

-- Storing a 16-bit number in two bytes keeps both.
stored_bytes :
    (c : ℕ) → c < 2 ^ 16 → (c % 2 ^ 8 % 2 ^ 8 ≡ c % 2 ^ 8) × (c / 2 ^ 8 % 2 ^ 8 ≡ c / 2 ^ 8)
stored_bytes c h = omega arith

abbrev store_frame : ℕ → List ℕ → ℕ → Option (List ℕ)
store_frame cmd_id payload crc =
    some (body cmd_id payload ++ (crc % 2 ^ 8 % 2 ^ 8) ∷ (crc / 2 ^ 8 % 2 ^ 8) ∷ [])

store_frame_lem :
    (cmd_id : ℕ) (payload : List ℕ)
    → IsBytes (body cmd_id payload)
    → store_frame cmd_id payload (crc_reference 0 (body cmd_id payload))
      ≡ some (frame cmd_id payload)
store_frame_lem cmd_id payload h =
    let (low, high) =
      stored_bytes (crc_reference 0 (body cmd_id payload))
        (crc_reference-lt 0 (body cmd_id payload) (omega arith) h) in
    λ i. some (body cmd_id payload ++ low i ∷ high i ∷ [])

store_crc_at :
    (i len : ℕ) (buf : List ℕ) (crc : ℕ)
    → crc16_calculate buf len ≡ some crc
    → store_crc i len buf ≡ store16 i crc buf
store_crc_at i len buf crc e = rw (e, store_crc)

-- The value of a `uint16_t` is that of its two bytes.
word_bytes : (z : ℤ) → (word 16 z % 2 ^ 8 < 2 ^ 8) × (word 16 z / 2 ^ 8 < 2 ^ 8)
word_bytes z = omega (arith, word-lt 16 z (omega arith))

pub siyi_cam_manual_zoom-frame :
    (zoom_integer zoom_decimal : ℕ)
    → zoom_integer < 2 ^ 8
    → zoom_decimal < 2 ^ 8
    → siyi_cam_manual_zoom zoom_integer zoom_decimal
      ≡ some (frame 0x0f (zoom_integer ∷ zoom_decimal ∷ []))
unfolding siyi_cam_manual_zoom
siyi_cam_manual_zoom-frame i d hi hd =
    let p : List ℕ = i ∷ d ∷ [] in
    let bytes : IsBytes (body 0x0f p) = omega arith in
    rw (mod-eq_of_lt hi, mod-eq_of_lt hd)
      (store_crc_at 10 10 (body 0x0f p ++ 0 ∷ 0 ∷ []) (crc_reference 0 (body 0x0f p))
          (crc16_calculate-crc_reference (body 0x0f p) (0 ∷ 0 ∷ []) bytes)
        ∙ store_frame_lem 0x0f p bytes)

pub siyi_cam_gimbal_rotate_speed-frame :
    (yaw pitch : ℤ)
    → siyi_cam_gimbal_rotate_speed yaw pitch ≡ some (frame 0x07 (word 8 yaw ∷ word 8 pitch ∷ []))
unfolding siyi_cam_gimbal_rotate_speed
siyi_cam_gimbal_rotate_speed-frame yaw pitch =
    let p : List ℕ = word 8 yaw ∷ word 8 pitch ∷ [] in
    let y : word 8 yaw < 2 ^ 8 = word-lt 8 yaw (omega arith) in
    let z : word 8 pitch < 2 ^ 8 = word-lt 8 pitch (omega arith) in
    let bytes : IsBytes (body 0x07 p) = omega arith in
    rw (mod-eq_of_lt y, mod-eq_of_lt z)
      (store_crc_at 10 10 (body 0x07 p ++ 0 ∷ 0 ∷ []) (crc_reference 0 (body 0x07 p))
          (crc16_calculate-crc_reference (body 0x07 p) (0 ∷ 0 ∷ []) bytes)
        ∙ store_frame_lem 0x07 p bytes)

pub siyi_cam_gimbal_rotate-frame :
    (yaw pitch : ℤ)
    → siyi_cam_gimbal_rotate yaw pitch
      ≡ some (frame 0x0e (little_endian (word 16 yaw) ++ little_endian (word 16 pitch)))
unfolding siyi_cam_gimbal_rotate
siyi_cam_gimbal_rotate-frame yaw pitch =
    let p : List ℕ = little_endian (word 16 yaw) ++ little_endian (word 16 pitch) in
    let (yl, yh) = word_bytes yaw in
    let (zl, zh) = word_bytes pitch in
    let bytes : IsBytes (body 0x0e p) = omega (arith, word_bytes yaw, word_bytes pitch) in
    rw (mod-eq_of_lt yl, mod-eq_of_lt yh, mod-eq_of_lt zl, mod-eq_of_lt zh)
      (store_crc_at 12 12 (body 0x0e p ++ 0 ∷ 0 ∷ []) (crc_reference 0 (body 0x0e p))
          (crc16_calculate-crc_reference (body 0x0e p) (0 ∷ 0 ∷ []) bytes)
        ∙ store_frame_lem 0x0e p bytes)

pub siyi_cam_gimbal_centering-frame : siyi_cam_gimbal_centering ≡ some (frame 0x08 (1 ∷ []))
unfolding siyi_cam_gimbal_centering
siyi_cam_gimbal_centering-frame =
    let bytes : IsBytes (body 0x08 (1 ∷ [])) = omega arith in
    store_crc_at 9 9 (body 0x08 (1 ∷ []) ++ 0 ∷ 0 ∷ []) (crc_reference 0 (body 0x08 (1 ∷ [])))
      (crc16_calculate-crc_reference (body 0x08 (1 ∷ [])) (0 ∷ 0 ∷ []) bytes)
    ∙ store_frame_lem 0x08 (1 ∷ []) bytes
