-- ===== src/RtspStream.antt =====
-- src/rtsp_stream.c: saving images and videos from the stream of a camera. The functions run on the
-- thread of the server and on those of GStreamer, one after the other here; the ones that set the
-- pipeline up are in RtspStream/Pipeline.
pub mod Timestamp
pub mod Pipeline
pub mod Recording
pub mod Snapshots
pub mod Changes
pub mod Events
pub mod Tests
use uav_mission_server.Prelude.{
  ℕ, zero, suc, ◌+◌, ◌<◌, Bool, true, false, not, ◌&&◌, ◌||◌, List, [], ◌∷◌, ◌++◌, Option, none,
  some, length, take, ltb, if◌then◌else◌, codes, String, ◌≡◌,
}
use uav_mission_server.Prelude.Options.{◌>>=◌}
use uav_mission_server.Prelude.Int.{ℤ, pos}
use uav_mission_server.RtspStream.Timestamp.{Tm, generate_timestamp}

-- `struct rtsp_config`. A `char *` that was not set is `none`, and following it is a fault.
pub record RtspConfig : Type 0 where
  pub save_path : Option (List ℕ)
  pub codec : Option (List ℕ)
  pub board_name : Option (List ℕ)
  pub rtsp_stream_url : Option (List ℕ)
  pub video_format : Option (List ℕ)
  pub image_width : ℤ
  pub image_height : ℤ

-- The outputs of `mp4_osel`: to the file sink, and to the fake sink.
pub data Pad : Type 0 where
  osel_src1 osel_src2 : Pad

-- What is done to the outside: an EOS event sent to the encoder of the videos, the pipeline stopped
-- and started again with a file to write videos to, an image file written.
pub data Saving : Type 0 where
  eos_sent : Saving
  restarted : List ℕ → Saving
  image_saved : List ℕ → List ℕ → Saving

-- The fields of `gst_data_t` that change behind the start, the active pad of `mp4_osel`, the location
-- of `mp4_sink`, the count of the samples that were pulled and not given back, and a log, newest first.
pub record GstData : Type 0 where
  pub rtsp_config : RtspConfig
  pub camera_id : ℤ
  pub recording : Bool
  pub busy : Bool
  pub snapshot_request : Bool
  pub camera_ready : Bool
  pub mp4_file_name : List ℕ
  pub active_pad : Pad
  pub location : List ℕ
  pub held : ℕ
  pub log : List Saving

abbrev pub path_max : ℕ
path_max = 4096

abbrev pub file_name : List ℕ → List ℕ → String → List ℕ
file_name save_path timestamp extension = save_path ++ codes "/" ++ timestamp ++ codes extension

-- `sprintf` into a buffer of `size` bytes; `none` is a write behind its end.
abbrev pub sprintf : ℕ → List ℕ → Option (List ℕ)
sprintf size text = if ltb (length text) size then some text else none

-- `snprintf` cuts the text.
abbrev pub snprintf : ℕ → List ℕ → List ℕ
snprintf zero text = []
snprintf (suc size) text = take size text

pub eos_handler : Bool → GstData → GstData
eos_handler is_eos data' =
    if not is_eos
    then data'
    else if data'.busy
    then record data' { busy = false; active_pad = osel_src2 }
    else data'

-- `sample` is what `pull-sample` gave. `none` is a NULL file or a path without a value that is used, or
-- a text that does not fit.
abbrev pub write_image : Bool → List ℕ → List ℕ → GstData → Option GstData
write_image opened name jpeg data' =
    if opened
    then some (record data' { snapshot_request = false; log = image_saved name jpeg ∷ data'.log })
    else none

abbrev pub save_sample : Tm → Bool → List ℕ → GstData → Option GstData
save_sample now opened jpeg data' = do
  timestamp ← generate_timestamp now
  path ← data'.rtsp_config.save_path
  write_image opened (snprintf path_max (file_name path timestamp ".jpg")) jpeg data'

pub on_new_sample_handler : Option (List ℕ) → Tm → Bool → GstData → Option GstData
on_new_sample_handler none now opened data' = some data'
on_new_sample_handler (some jpeg) now opened data' =
    if data'.snapshot_request
    then save_sample now opened jpeg data'
    else some (record data' { held = data'.held + 1 })

unfoldable pub rtsp_save_image : GstData → GstData
rtsp_save_image data' =
    if not data'.camera_ready then data' else record data' { snapshot_request = true }

abbrev pub stop_recording : GstData → GstData
stop_recording data' = record data' {
  busy = true;
  log = eos_sent ∷ data'.log;
  recording = not data'.recording;
}

abbrev pub start_recording : Tm → GstData → Option GstData
start_recording now data' = do
  timestamp ← generate_timestamp now
  path ← data'.rtsp_config.save_path
  name ← sprintf path_max (file_name path timestamp ".mp4")
  some (record data' {
    mp4_file_name = name;
    location = name;
    active_pad = osel_src1;
    log = restarted name ∷ data'.log;
    recording = not data'.recording;
  })

unfoldable pub rtsp_change_record_state : Tm → GstData → Option GstData
rtsp_change_record_state now data' =
    if not data'.camera_ready
    then some data'
    else if data'.busy
    then some data'
    else if data'.recording
    then some (stop_recording data')
    else start_recording now data'

-- `rtsp_open`: the memory is cleared and the configuration copied. The pad and the location are those
-- that the pipeline is built with.
unfoldable pub rtsp_open : ℤ → RtspConfig → GstData
rtsp_open id args = record {
  rtsp_config = args;
  camera_id = id;
  recording = false;
  busy = false;
  snapshot_request = false;
  camera_ready = false;
  mp4_file_name = [];
  active_pad = osel_src2;
  location = codes "/tmp/.empty.mp4";
  held = 0;
  log = [];
}
