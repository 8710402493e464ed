-- ===== src/RtspStream/Pipeline/Tests.antt =====
-- A pipeline with every call of GStreamer succeeding.
use uav_mission_server.Prelude.{◌≡◌, refl, Bool, true, List, some, codes}
use uav_mission_server.Prelude.Int.{pos}
use uav_mission_server.Prelude.Libc.{str_eq}
use uav_mission_server.RtspStream.{RtspConfig}
use uav_mission_server.RtspStream.Pipeline.{
  Call, ready, rtsp_saver, instructions, execute, make_each, all_elements,
}
use uav_mission_server.RtspStream.Pipeline.Links.{Built, build}
use uav_mission_server.RtspStream.Pipeline.Built.{Complete, rtsp_saver-Complete}

abbrev config : RtspConfig
config = record {
  save_path = some (codes "/tmp");
  codec = some (codes "h264");
  board_name = some (codes "rb5");
  rtsp_stream_url = some (codes "rtsp://192.168.0.25:8554/main.264");
  video_format = some (codes "video/x-raw");
  image_width = pos 1280;
  image_height = pos 720;
}

abbrev always : Call → Bool
always c = true

abbrev comes : (t : List Call) × (rtsp_saver always config ≡ ready t)
unfolding rtsp_saver str_eq execute make_each instructions all_elements
comes = (_, refl)

rtsp_saver-Complete_example : (b : Built) × (build comes.0 ≡ some b) × Complete b
rtsp_saver-Complete_example = rtsp_saver-Complete always config comes.0 comes.1
