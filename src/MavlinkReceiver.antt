-- ===== src/MavlinkReceiver.antt =====
-- src/mavlink_receiver.c: what the flight controller and the ground station ask for. The MAVLink parser
-- and decoders are generated code: a message carries what they give. Numbers with a point are a
-- parameter, and so is what the system gives to the operations of a camera.
pub mod Rc
pub mod Zoom
pub mod Angles
pub mod Video
pub mod Messages
pub mod Acknowledged
pub mod Tests
use uav_mission_server.Prelude.{
  ℕ, zero, suc, ◌+◌, ◌/◌, ◌%◌, Bool, true, false, not, ◌||◌, List, [], ◌∷◌, Option, none, some,
  ◌==◌, leb, if◌then◌else◌,
}
use uav_mission_server.Prelude.Int.{ℤ, pos}
use uav_mission_server.Prelude.Outcomes.{Outcome, ok, exited, fault, ◌>>=◌}
use uav_mission_server.Device.{camera_save_image, camera_change_record_state}
use uav_mission_server.SiyiCamera.Operations.{World, Cameras}
use uav_mission_server.MavlinkPublisher.{
  Numbers, Link, mavlink_send_ack, mavlink_send_camera_info, mavlink_send_camera_settings,
  mavlink_send_storage_information, mavlink_send_camera_capture_status, get_video_status,
  set_video_status, reset_video_status,
}

-- The channels of an `rc_channels` message that are used.
pub record RcChannels : Type 0 where
  pub chan1_raw : ℕ
  pub chan2_raw : ℕ
  pub chan5_raw : ℕ
  pub chan9_raw : ℕ
  pub chan13_raw : ℕ
  pub chan14_raw : ℕ

-- `mavlink_message_t`, with what the decoders of `rc_channels` and `command_long` give for it.
pub record MavlinkMessage : Type 0 where
  pub msgid : ℕ
  pub sysid : ℕ
  pub compid : ℕ
  pub rc_channels : RcChannels
  pub command : ℕ

-- The state that the handlers share: the link, the devices, and whether the flight controller has
-- answered.
pub record Fcu : Type 0 where
  pub serial_is_ready : Bool
  pub link : Link
  pub cameras : Cameras

abbrev pub on_cameras : (Cameras → Outcome Cameras) → Fcu → Outcome Fcu
on_cameras call fcu = call fcu.cameras >>= λ cameras'. ok (record fcu { cameras = cameras' })

abbrev pub on_link : (Link → Link) → Fcu → Fcu
on_link send fcu = record fcu { link = send fcu.link }

unfoldable pub mav_fcu_autopilot_version : MavlinkMessage → Fcu → Fcu
mav_fcu_autopilot_version recvd_msg fcu = record fcu {
  serial_is_ready = true;
  link = record fcu.link { fcu_sysid = recvd_msg.sysid };
}

module _ (mav : Numbers) (w : World) where
  abbrev pub accept : ℕ → MavlinkMessage → Fcu → Fcu
  accept command msg fcu =
      on_link (mavlink_send_ack mav command mav.mav_result_accepted 0 (pos 0) msg.sysid msg.compid)
        fcu

  -- The recording is changed if `video_status` is `recording`.
  abbrev pub change_if : Bool → Fcu → Outcome Fcu
  change_if recording fcu =
      if recording then on_cameras (camera_change_record_state w (pos 0)) fcu else ok fcu

  abbrev pub start_image : MavlinkMessage → Fcu → Outcome Fcu
  start_image msg fcu =
      on_cameras (camera_save_image w (pos 0)) fcu >>= λ saved. ok (accept 2000 msg saved)

  abbrev pub start_video : MavlinkMessage → Fcu → Outcome Fcu
  start_video msg fcu =
      change_if (not (get_video_status fcu.link)) (accept 2500 msg fcu) >>= λ changed.
      ok (on_link set_video_status changed)

  abbrev pub stop_video : MavlinkMessage → Fcu → Outcome Fcu
  stop_video msg fcu = change_if (get_video_status fcu.link) (accept 2501 msg fcu) >>= λ changed.
      ok (on_link reset_video_status changed)

  -- The cases of the switch, with the numbers that stand behind them in comments.
  unfoldable pub mav_command_long : MavlinkMessage → Fcu → Outcome Fcu
  mav_command_long msg fcu =
      if msg.command == 203
      then ok fcu
      else if msg.command == 521
      then ok (on_link (mavlink_send_camera_info mav msg.sysid msg.compid) fcu)
      else if msg.command == 522
      then ok (on_link (mavlink_send_camera_settings mav msg.sysid msg.compid) fcu)
      else if msg.command == 525
      then ok (on_link (mavlink_send_storage_information mav msg.sysid msg.compid) fcu)
      else if msg.command == 527
      then ok (on_link (mavlink_send_camera_capture_status mav msg.sysid msg.compid) fcu)
      else if msg.command == 530
      then ok (
          on_link (mavlink_send_camera_capture_status mav msg.sysid msg.compid)
            (accept 530 msg fcu))
      else if msg.command == 2000
      then start_image msg fcu
      else if msg.command == 2001
      then ok (accept 2001 msg fcu)
      else if msg.command == 2500
      then start_video msg fcu
      else if msg.command == 2501
      then stop_video msg fcu
      else ok fcu
