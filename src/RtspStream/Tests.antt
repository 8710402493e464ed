-- ===== src/RtspStream/Tests.antt =====
-- A camera at known inputs.
use uav_mission_server.Prelude.{ℕ, ◌≡◌, refl, arith, true, false, List, [], ◌∷◌, some, codes}
use uav_mission_server.Prelude.Int.{pos}
use uav_mission_server.RtspStream.Timestamp.{Tm, IsTime, generate_timestamp}
use uav_mission_server.Prelude.Libc.{digits}
use uav_mission_server.RtspStream.{
  RtspConfig, GstData, osel_src1, osel_src2, restarted, image_saved, on_new_sample_handler,
  rtsp_save_image, rtsp_change_record_state, rtsp_open,
}
use uav_mission_server.RtspStream.Recording.{record_state, ready, Reachable, from_open, after}
use uav_mission_server.RtspStream.Snapshots.{image_name, rtsp_save_image-on_new_sample_handler}

abbrev noon : Tm
noon = record { tm_year = 124; tm_mon = 6; tm_mday = 3; tm_hour = 12; tm_min = 5; tm_sec = 9 }

noon-IsTime : IsTime noon
noon-IsTime = record {
  year = omega arith;
  mon = omega arith;
  mday = omega arith;
  hour = omega arith;
  min = omega arith;
  sec = omega arith;
}

stamp : generate_timestamp noon ≡ some (codes "20240703120509")
unfolding generate_timestamp digits
stamp = refl

abbrev config : RtspConfig
config = record {
  save_path = some (codes "/home/uav");
  codec = some (codes "h265");
  board_name = some (codes "rb5");
  rtsp_stream_url = some (codes "rtsp://192.168.0.25:8554/main.264");
  video_format = some (codes "video/x-raw");
  image_width = pos 1920;
  image_height = pos 1080;
}

abbrev camera : GstData
camera = record {
  rtsp_config = config;
  camera_id = pos 0;
  recording = false;
  busy = false;
  snapshot_request = false;
  camera_ready = true;
  mp4_file_name = [];
  active_pad = osel_src2;
  location = codes "/tmp/.empty.mp4";
  held = 0;
  log = [];
}

abbrev film : List ℕ
film = codes "/home/uav/20240703120509.mp4"

abbrev filming : GstData
filming = record camera {
  recording = true;
  mp4_file_name = film;
  location = film;
  active_pad = osel_src1;
  log = restarted film ∷ [];
}

starts : rtsp_change_record_state noon camera ≡ some filming
unfolding rtsp_change_record_state generate_timestamp digits
starts = refl

from_ready :
    rtsp_change_record_state noon (record (rtsp_open (pos 0) config) { camera_ready = true })
    ≡ some filming
unfolding rtsp_open rtsp_change_record_state generate_timestamp digits
from_ready = refl

abbrev run_to_film : Reachable (pos 0) config filming
run_to_film = after (after from_open (ready (rtsp_open (pos 0) config))) (
    record_state noon (record (rtsp_open (pos 0) config) { camera_ready = true }) filming
      from_ready)

rtsp_save_image-on_new_sample_handler_example :
    (timestamp : List ℕ) × (saved again : GstData) × (on_new_sample_handler
        (some (1 ∷ 2 ∷ []))
        noon
        true
        (rtsp_save_image filming)
      ≡ some saved)
    × (saved.log
        ≡ image_saved (image_name (codes "/home/uav") timestamp) (1 ∷ 2 ∷ []) ∷ filming.log)
    × (on_new_sample_handler (some (3 ∷ [])) noon false saved ≡ some again)
    × (again.log ≡ saved.log)
rtsp_save_image-on_new_sample_handler_example =
    rtsp_save_image-on_new_sample_handler filming (codes "/home/uav") (1 ∷ 2 ∷ []) (3 ∷ []) noon
      false refl refl noon-IsTime
