-- ===== src/Device/Requests.antt =====
-- A request at a device that is open is the operation of its driver.
use uav_mission_server.Prelude.{ℕ, ◌≡◌, ap, ◌∙◌, true, List, some, get_elem?}
use uav_mission_server.Prelude.Int.{ℤ, pos}
use uav_mission_server.Device.{
  Operation, CameraOperations, CameraDev, device_present, run_operation, through, present_entry,
  open_entry, dispatch, open_with, camera_open, camera_close, camera_save_image,
  camera_change_record_state, camera_zoom, gimbal_open, gimbal_close, gimbal_centering,
  gimbal_rotate,
}
use uav_mission_server.Device.Drivers.{entry_present}

-- An entry of the array with its driver.
pub record Driven {W P G C D : Type 0} (devs : List (CameraDev W P G C D)) (n : ℕ)
    (d : CameraDev W P G C D) (ops : CameraOperations W P G C D) : Type 0 where
  pub here : get_elem? devs n ≡ some d
  pub driver : d.camera_ops ≡ some ops

module _ {W P G C D : Type 0} (w : W) (n : ℕ) (devs : List (CameraDev W P G C D))
    (d : CameraDev W P G C D) (ops : CameraOperations W P G C D) (h : Driven devs n d ops) where
  open_run :
      (operation : CameraOperations W P G C D → Operation W P G)
      → open_with operation w (pos n) devs ≡ run_operation (operation ops) w (pos n) d devs
  unfolding open_with
  open_run operation =
      ap (λ o. open_entry operation o w (pos n) devs) h.here
      ∙ ap (λ o. through operation o w (pos n) d devs) h.driver

  pub camera_open-run :
      (args : C)
      → camera_open w (pos n) args devs ≡ run_operation (ops.camera_open args) w (pos n) d devs
  unfolding camera_open
  camera_open-run args = open_run (λ o. o.camera_open args)

  pub gimbal_open-run :
      (args : D)
      → gimbal_open w (pos n) args devs ≡ run_operation (ops.gimbal_open args) w (pos n) d devs
  unfolding gimbal_open
  gimbal_open-run args = open_run (λ o. o.gimbal_open args)

  module _ (present : device_present d.device ≡ true) where
    run :
        (operation : CameraOperations W P G C D → Operation W P G)
        → dispatch operation w (pos n) devs ≡ run_operation (operation ops) w (pos n) d devs
    unfolding dispatch
    run operation =
        ap (λ o. present_entry operation o w (pos n) devs) h.here
        ∙ entry_present operation w n d devs present
        ∙ ap (λ o. through operation o w (pos n) d devs) h.driver

    pub camera_close-run :
        camera_close w (pos n) devs ≡ run_operation ops.camera_close w (pos n) d devs
    unfolding camera_close
    camera_close-run = run (λ o. o.camera_close)

    pub camera_save_image-run :
        camera_save_image w (pos n) devs ≡ run_operation ops.camera_save_image w (pos n) d devs
    unfolding camera_save_image
    camera_save_image-run = run (λ o. o.camera_save_image)

    pub camera_change_record_state-run :
        camera_change_record_state w (pos n) devs
        ≡ run_operation ops.camera_change_record_state w (pos n) d devs
    unfolding camera_change_record_state
    camera_change_record_state-run = run (λ o. o.camera_change_record_state)

    pub camera_zoom-run :
        (zoom_integer zoom_decimal : ℕ)
        → camera_zoom w (pos n) zoom_integer zoom_decimal devs
          ≡ run_operation (ops.camera_zoom zoom_integer zoom_decimal) w (pos n) d devs
    unfolding camera_zoom
    camera_zoom-run zoom_integer zoom_decimal = run (λ o. o.camera_zoom zoom_integer zoom_decimal)

    pub gimbal_close-run :
        gimbal_close w (pos n) devs ≡ run_operation ops.gimbal_close w (pos n) d devs
    unfolding gimbal_close
    gimbal_close-run = run (λ o. o.gimbal_close)

    pub gimbal_centering-run :
        gimbal_centering w (pos n) devs ≡ run_operation ops.gimbal_centering w (pos n) d devs
    unfolding gimbal_centering
    gimbal_centering-run = run (λ o. o.gimbal_centering)

    pub gimbal_rotate-run :
        (yaw pitch : ℤ)
        → gimbal_rotate w (pos n) yaw pitch devs
          ≡ run_operation (ops.gimbal_rotate yaw pitch) w (pos n) d devs
    unfolding gimbal_rotate
    gimbal_rotate-run yaw pitch = run (λ o. o.gimbal_rotate yaw pitch)
