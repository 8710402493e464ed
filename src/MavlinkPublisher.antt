-- ===== src/MavlinkPublisher.antt =====
-- src/mavlink_publisher.c: the messages to the flight controller and the ground station. The packers
-- and the numbers of MAVLink are generated code: a message is what its packer is called with, and the
-- numbers that the source gives by name only are a parameter.
pub mod Tune
pub mod Scheduler
pub mod Tests
use uav_mission_server.Prelude.{
  ℕ, zero, suc, ◌+◌, ◌-◌, ◌*◌, ◌^◌, Bool, true, false, List, [], ◌∷◌, Option, none, some, length,
  get_elem?, leb, if◌then◌else◌, codes, String, map,
}
use uav_mission_server.Prelude.Int.{ℤ, pos, negsuc, word}

-- Names of the generated headers.
pub record Numbers : Type 0 where
  pub mav_comp_id_all : ℕ
  pub mav_comp_id_camera : ℕ
  pub mav_comp_id_onboard_computer : ℕ
  pub mav_type_camera : ℕ
  pub mav_autopilot_invalid : ℕ
  pub mav_state_standby : ℕ
  pub mav_result_accepted : ℕ
  pub mav_cmd_request_autopilot_capabilities : ℕ
  pub camera_mode_image : ℕ
  pub camera_cap_flags : ℕ

-- The sender of a message.
pub record Sender : Type 0 where
  pub sys_id : ℕ
  pub component_id : ℕ

-- The arguments of the packers behind the sender. Numbers with a point are whole here; those that are
-- always 0 are left out.
pub data Body : Type 0 where
  -- type, autopilot, base_mode, custom_mode, sys_status
  heartbeat : ℕ → ℕ → ℕ → ℕ → ℕ → Body
  -- target_system, target_component, tune, tune2
  play_tune : ℕ → ℕ → List ℕ → List ℕ → Body
  -- target_system, target_component, command, confirmation, param1
  command_long : ℕ → ℕ → ℕ → ℕ → ℕ → Body
  -- time_usec, seq, target_system, target_component
  ping : ℕ → ℕ → ℕ → ℕ → Body
  -- command, result, progress, result_param2, target_system, target_component
  command_ack : ℕ → ℕ → ℕ → ℤ → ℕ → ℕ → Body
  -- vendor_name, model_name, flags, gimbal_device_id
  camera_information : List ℕ → List ℕ → ℕ → ℕ → Body
  -- mode_id, zoom_level, focus_level
  camera_settings : ℕ → ℕ → ℕ → Body
  -- image_status, video_status, available_capacity, image_count
  camera_capture_status : ℕ → Bool → ℕ → ℤ → Body
  -- gimbal_device_id, and tilt_max, tilt_min, pan_max, pan_min in quarters of a turn (`M_PI / 2`)
  gimbal_manager_information : ℕ → ℤ → ℤ → ℤ → ℤ → Body

pub record Message : Type 0 where
  pub sender : Sender
  pub body : Body

-- The system of the flight controller, `video_status`, and the messages handed to `serial_write`,
-- newest first.
pub record Link : Type 0 where
  pub fcu_sysid : ℕ
  pub video_status : Bool
  pub outbox : List Message

abbrev pub rb5_id : ℕ
rb5_id = 2

abbrev pub tune_table : List (List ℕ)
tune_table =
    codes "MFT240L8 O4aO5dc O4aO5dc O4aO5dc L16dcdcdcdc"
    ∷ codes "MBT200a8a8a8PaaaP"
    ∷ codes "MFT200e8a8a"
    ∷ codes "MFT200e8e"
    ∷ codes "MFT200e8c8e8c8e8c8"
    ∷ codes "MNT75L1O2G"
    ∷ codes "MBNT100a8"
    ∷ codes "MBNT255a8a8a8a8a8a8a8a8a8a8a8a8a8a8a8a8"
    ∷ codes "MFT255L4AAAL1F#"
    ∷ codes "MFT255L4<<<BAP"
    ∷ codes "MFT255L16agagagag"
    ∷ codes "MFT100a8"
    ∷ codes "MFT100L4>G#6A#6B#4"
    ∷ codes "MFAGPAG"
    ∷ codes "MNBG"
    ∷ codes "MLL32CP8MB"
    ∷ codes "MLL8CDE"
    ∷ codes "ML<<CP4CP4CP4CP4CP4"
    ∷ codes "MFT255a8g8f8e8c8<b8a8g4"
    ∷ []

abbrev pub tune_cnt : ℕ
tune_cnt = length tune_table

abbrev pub camera_vendor_name : List ℕ
camera_vendor_name = codes "SIYI"

abbrev pub camera_model_name : List ℕ
camera_model_name = codes "A8-Mini"

unfoldable pub mavlink_send_msg : Message → Link → Link
mavlink_send_msg msg link = record link { outbox = msg ∷ link.outbox }

unfoldable pub set_video_status : Link → Link
set_video_status link = record link { video_status = true }

unfoldable pub reset_video_status : Link → Link
reset_video_status link = record link { video_status = false }

unfoldable pub get_video_status : Link → Bool
get_video_status link = link.video_status

module _ (mav : Numbers) where
  abbrev camera : Link → Sender
  camera link = record { sys_id = link.fcu_sysid; component_id = mav.mav_comp_id_camera }

  abbrev computer : Sender
  computer = record { sys_id = rb5_id; component_id = mav.mav_comp_id_onboard_computer }

  unfoldable pub mavlink_send_camera_hearbeart : Link → Link
  unfolding mavlink_send_msg
  mavlink_send_camera_hearbeart link =
      mavlink_send_msg
        (record {
          sender = camera link;
          body = heartbeat mav.mav_type_camera mav.mav_autopilot_invalid 0 0 mav.mav_state_standby;
        })
        link

  abbrev pub send_tune : Option (List ℕ) → Link → Option Link
  send_tune none link = none
  send_tune (some tune) link = some (record link {
    outbox =
        record { sender = computer; body = play_tune link.fcu_sysid mav.mav_comp_id_all tune [] }
        ∷ link.outbox;
  })

  -- `tune_num >= TUNE_CNT` compares as `size_t`; `none` is a read outside of the table.
  unfoldable pub mavlink_send_play_tune : ℤ → Link → Option Link
  mavlink_send_play_tune tune_num link =
      if leb tune_cnt (word 64 tune_num)
      then some link
      else send_tune (get_elem? tune_table (word 64 tune_num)) link

  unfoldable pub mavlink_send_request_autopilot_capabilities : Link → Link
  unfolding mavlink_send_msg
  mavlink_send_request_autopilot_capabilities link =
      mavlink_send_msg
        (record {
          sender = computer;
          body =
              command_long link.fcu_sysid mav.mav_comp_id_all
                mav.mav_cmd_request_autopilot_capabilities 0 1;
        })
        link

  pub mavlink_send_ping : Link → Link
  unfolding mavlink_send_msg
  mavlink_send_ping link =
      mavlink_send_msg (record { sender = computer; body = ping 0 0 255 mav.mav_comp_id_all }) link

  unfoldable pub mavlink_send_ack : ℕ → ℕ → ℕ → ℤ → ℕ → ℕ → Link → Link
  unfolding mavlink_send_msg
  mavlink_send_ack cmd result progress result_param2 target_system target_component link =
      mavlink_send_msg
        (record {
          sender = camera link;
          body = command_ack cmd result progress result_param2 target_system target_component;
        })
        link

  -- Nothing calls it.
  pub mavlink_send_gimbal_manager_info : Link → Link
  unfolding mavlink_send_msg
  mavlink_send_gimbal_manager_info link =
      mavlink_send_msg
        (record {
          sender = record {
            sys_id = link.fcu_sysid;
            component_id = mav.mav_comp_id_onboard_computer;
          };
          body = gimbal_manager_information 1 (pos 1) (negsuc 0) (pos 2) (negsuc 1);
        })
        link

  unfoldable pub mavlink_send_camera_info : ℕ → ℕ → Link → Link
  unfolding mavlink_send_msg mavlink_send_ack
  mavlink_send_camera_info target_system target_component link =
      mavlink_send_msg
        (record {
          sender = camera link;
          body = camera_information camera_vendor_name camera_model_name mav.camera_cap_flags 1;
        })
        (mavlink_send_ack 521 mav.mav_result_accepted 0 (pos 0) target_system target_component link)

  unfoldable pub mavlink_send_camera_settings : ℕ → ℕ → Link → Link
  unfolding mavlink_send_msg mavlink_send_ack
  mavlink_send_camera_settings target_system target_component link =
      mavlink_send_msg
        (record { sender = camera link; body = camera_settings mav.camera_mode_image 25 100 })
        (mavlink_send_ack 522 mav.mav_result_accepted 0 (pos 0) target_system target_component link)

  -- The code behind the first `return` never runs.
  unfoldable pub mavlink_send_storage_information : ℕ → ℕ → Link → Link
  unfolding mavlink_send_ack
  mavlink_send_storage_information target_system target_component link =
      mavlink_send_ack 525 mav.mav_result_accepted 0 (pos 0) target_system target_component link

  unfoldable pub mavlink_send_camera_capture_status : ℕ → ℕ → Link → Link
  unfolding mavlink_send_msg mavlink_send_ack
  mavlink_send_camera_capture_status target_system target_component link =
      mavlink_send_msg
        (record {
          sender = camera link;
          body = camera_capture_status 0 link.video_status (32 * 1024) (pos 0);
        })
        (mavlink_send_ack 527 mav.mav_result_accepted 0 (pos 0) target_system target_component link)
