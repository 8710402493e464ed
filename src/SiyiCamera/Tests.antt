-- ===== src/SiyiCamera/Tests.antt =====
-- Messages of siyi_camera.c at known inputs.
use uav_mission_server.Prelude.{◌≡◌, refl, some, [], ◌∷◌, ◌++◌}
use uav_mission_server.Prelude.Int.{pos, negsuc}
use uav_mission_server.Crc16.{crc16_calculate, crc16_tab}
use uav_mission_server.SiyiCamera.{siyi_cam_gimbal_rotate, siyi_cam_gimbal_centering}

-- The centering message that the manual of the camera prints.
centering :
    siyi_cam_gimbal_centering
    ≡ some (0x55 ∷ 0x66 ∷ 0x01 ∷ 0x01 ∷ 0x00 ∷ 0x00 ∷ 0x00 ∷ 0x08 ∷ 0x01 ∷ 0xd1 ∷ 0x12 ∷ [])
unfolding siyi_cam_gimbal_centering crc16_calculate crc16_tab
centering = refl

-- Yaw -90 and pitch 25 degrees, in tenths.
turned :
    siyi_cam_gimbal_rotate (negsuc 899) (pos 250)
    ≡ some (
        ((0x55 ∷ 0x66 ∷ 0x01 ∷ 0x04 ∷ 0x00 ∷ 0x00 ∷ 0x00 ∷ 0x0e ∷ 0x7c ∷ [])
          ++ 0xfc ∷ 0xfa ∷ 0x00 ∷ [])
        ++ 0x96 ∷ 0xa0 ∷ [])
unfolding siyi_cam_gimbal_rotate crc16_calculate crc16_tab
turned = refl
