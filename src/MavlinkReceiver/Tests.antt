-- ===== src/MavlinkReceiver/Tests.antt =====
-- Messages at known inputs, with whole numbers for `float`.
use uav_mission_server.Prelude.{
  ℕ, ◌≡◌, ◌≤◌, ◌/◌, ◌%◌, refl, arith, Bool, true, false, [], ◌∷◌, none, some, codes, if◌then◌else◌,
}
use uav_mission_server.Prelude.Int.{ℤ, pos, ◌+ℤ◌, ◌-ℤ◌, ◌*ℤ◌, ltb_ℤ}
use uav_mission_server.Prelude.Outcomes.{ok}
use uav_mission_server.RtspStream.{GstData, osel_src2}
use uav_mission_server.Device.{live, null}
use uav_mission_server.SiyiCamera.Operations.{World, siyi_cam_ops}
use uav_mission_server.SiyiCamera.Operations.Closing.{Entry}
use uav_mission_server.Config.Rc.{ConfigRc}
use uav_mission_server.MavlinkPublisher.{
  Numbers, mavlink_send_camera_settings, mavlink_send_msg, mavlink_send_ack,
}
use uav_mission_server.MavlinkReceiver.{RcChannels, MavlinkMessage, Fcu, on_link, mav_command_long}
use uav_mission_server.MavlinkReceiver.Acknowledged.{Comes, mav_command_long-Comes}
use uav_mission_server.MavlinkReceiver.Rc.{Floats, Zoom, zoom_button}
use uav_mission_server.MavlinkReceiver.Zoom.{
  Bounded, readings, readings-Bounded, holding, one_up, hold_and_release,
}
use uav_mission_server.MavlinkReceiver.Video.{Camera}

abbrev resting : Zoom
resting = record { zoom_ratio = 10; zoom_dir = pos 0; zoom_stop = false }

readings-Bounded_example :
    let z = readings ((1100, pos 1102, pos 1927) ∷ (1500, pos 1102, pos 1927) ∷ []) resting in
    Bounded z × (1 ≤ z.zoom_ratio / 10) × (z.zoom_ratio / 10 ≤ 4) × (z.zoom_ratio % 10 ≤ 9)
readings-Bounded_example =
    readings-Bounded ((1100, pos 1102, pos 1927) ∷ (1500, pos 1102, pos 1927) ∷ []) resting
      (omega arith, omega arith)

hold_and_release_example :
    let held = holding (pos 1102) (pos 1927) (1100 ∷ 1090 ∷ 1102 ∷ []) resting in
    let released = zoom_button 1500 (pos 1102) (pos 1927) held in
    ((zoom_button 1100 (pos 1102) (pos 1927) resting).1 ≡ false)
    × (held.zoom_ratio ≡ 10)
    × (released.1 ≡ true)
    × (released.0.zoom_ratio ≡ one_up 10)
    × (zoom_button 1510 (pos 1102) (pos 1927) released.0 ≡ (released.0, false))
hold_and_release_example =
    hold_and_release (pos 1102) (pos 1927) 1100 (1090 ∷ 1102 ∷ []) 1500 1510 resting
      (omega arith, omega arith) (omega arith) (omega arith, (omega arith, tt))
      (omega arith, omega arith) (omega arith, omega arith)

abbrev pub whole : Floats
whole = record {
  Number = ℤ;
  of_int = λ n. n;
  add = ◌+ℤ◌;
  sub = ◌-ℤ◌;
  mul = ◌*ℤ◌;
  div = λ a b. a;
  neg = λ a. pos 0 -ℤ a;
  abs = λ a. if ltb_ℤ a (pos 0) then pos 0 -ℤ a else a;
  lt = ltb_ℤ;
  inc = pos 1;
  to_int16 = λ a. a;
}

abbrev axis : ConfigRc
axis = record { min = pos 1102; mid = pos 1515; max = pos 1927; reverse = false }

abbrev pub channels : RcChannels
channels = record {
  chan1_raw = 1900;
  chan2_raw = 1515;
  chan5_raw = 1102;
  chan9_raw = 1515;
  chan13_raw = 1102;
  chan14_raw = 1927;
}

abbrev pub camera : GstData
camera = record {
  rtsp_config = record {
    save_path = some (codes "/tmp");
    codec = some (codes "h264");
    board_name = none;
    rtsp_stream_url = none;
    video_format = none;
    image_width = pos 0;
    image_height = pos 0;
  };
  camera_id = pos 0;
  recording = true;
  busy = false;
  snapshot_request = false;
  camera_ready = true;
  mp4_file_name = [];
  active_pad = osel_src2;
  location = [];
  held = 0;
  log = [];
}

abbrev pub entry_of : GstData → Entry
entry_of d = record {
  device = record { id = pos 0; camera_priv = live d; gimbal_priv = null };
  camera_ops = some siyi_cam_ops;
}

abbrev pub fcu_of : GstData → Bool → Fcu
fcu_of d status = record {
  serial_is_ready = true;
  link = record { fcu_sysid = 1; video_status = status; outbox = [] };
  cameras = entry_of d ∷ [];
}

abbrev has_camera : (d : GstData) → Camera (entry_of d ∷ []) d
has_camera d = record {
  entry = entry_of d;
  driven = record { here = refl; driver = refl };
  priv = refl;
}

abbrev pub world : World
world = record {
  now = record { tm_year = 124; tm_mon = 6; tm_mday = 3; tm_hour = 12; tm_min = 5; tm_sec = 9 };
  allocated = true;
  socket = none;
  connected = λ ip port. true;
}

abbrev pub ask : ℕ → MavlinkMessage
ask command = record {
  msgid = 76;
  sysid = 255;
  compid = 190;
  rc_channels = channels;
  command = command;
}

abbrev pub numbers : Numbers
numbers = record {
  mav_comp_id_all = 0;
  mav_comp_id_camera = 100;
  mav_comp_id_onboard_computer = 191;
  mav_type_camera = 30;
  mav_autopilot_invalid = 8;
  mav_state_standby = 3;
  mav_result_accepted = 0;
  mav_cmd_request_autopilot_capabilities = 520;
  camera_mode_image = 0;
  camera_cap_flags = 0x4f;
}

-- A camera that is ready and records nothing.
abbrev idle : GstData
idle = record camera { recording = false }

-- The camera is not touched by a command for its settings.
settings_sent : Fcu
unfolding mavlink_send_camera_settings mavlink_send_msg mavlink_send_ack
settings_sent = on_link (mavlink_send_camera_settings numbers 255 190) (fcu_of camera true)

settings_asked : mav_command_long numbers world (ask 522) (fcu_of camera true) ≡ ok settings_sent
unfolding mav_command_long settings_sent
settings_asked = refl

mav_command_long-Comes_example :
    Comes numbers world (ask 522) (fcu_of camera true) settings_sent 522
mav_command_long-Comes_example =
    mav_command_long-Comes numbers world (ask 522) (fcu_of camera true) settings_sent settings_asked
