-- ===== src/Device/Absent.antt =====
-- Requests at cameras that are not there.
use uav_mission_server.Prelude.{ℕ, ◌≡◌, refl, false, List, some, get_elem?}
use uav_mission_server.Prelude.Int.{ℤ, pos}
use uav_mission_server.Prelude.Outcomes.{ok}
use uav_mission_server.Device.{
  Operation, CameraOperations, CameraDev, device_present, dispatch, camera_close, camera_save_image,
  camera_change_record_state, camera_zoom, gimbal_close, gimbal_centering, gimbal_rotate,
}

module _ {W P G C D : Type 0} where
  -- All seven requests at a camera that is open neither as camera nor as gimbal.
  abbrev pub Ignored : W → ℤ → ℕ → ℕ → ℤ → ℤ → List (CameraDev W P G C D) → Type 0
  Ignored w id zi zd yaw pitch devs =
      (camera_close w id devs ≡ ok devs)
      × (camera_save_image w id devs ≡ ok devs)
      × (camera_change_record_state w id devs ≡ ok devs)
      × (camera_zoom w id zi zd devs ≡ ok devs)
      × (gimbal_close w id devs ≡ ok devs)
      × (gimbal_centering w id devs ≡ ok devs)
      × (gimbal_rotate w id yaw pitch devs ≡ ok devs)

  dispatch_absent :
      (operation : CameraOperations W P G C D → Operation W P G) (w : W) (n : ℕ)
      (devs : List (CameraDev W P G C D)) (d : CameraDev W P G C D)
      → get_elem? devs n ≡ some d
      → device_present d.device ≡ false
      → dispatch operation w (pos n) devs ≡ ok devs
  unfolding dispatch
  dispatch_absent operation w n devs d e absent = rw (e, dispatch) (rw (absent, dispatch) refl)

  -- A request at a number in range where no device is open does nothing, also where no driver was
  -- registered, whose operations are NULL.
  absent-Ignored :
      (w : W) (n zi zd : ℕ) (yaw pitch : ℤ) (devs : List (CameraDev W P G C D))
      (d : CameraDev W P G C D)
      → get_elem? devs n ≡ some d
      → device_present d.device ≡ false
      → Ignored w (pos n) zi zd yaw pitch devs
  unfolding camera_close camera_save_image camera_change_record_state camera_zoom gimbal_close
      gimbal_centering gimbal_rotate
  absent-Ignored w n zi zd yaw pitch devs d e absent = (
    dispatch_absent (λ ops. ops.camera_close) w n devs d e absent,
    dispatch_absent (λ ops. ops.camera_save_image) w n devs d e absent,
    dispatch_absent (λ ops. ops.camera_change_record_state) w n devs d e absent,
    dispatch_absent (λ ops. ops.camera_zoom zi zd) w n devs d e absent,
    dispatch_absent (λ ops. ops.gimbal_close) w n devs d e absent,
    dispatch_absent (λ ops. ops.gimbal_centering) w n devs d e absent,
    dispatch_absent (λ ops. ops.gimbal_rotate yaw pitch) w n devs d e absent,
  )
