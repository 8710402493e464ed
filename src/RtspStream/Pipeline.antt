-- ===== src/RtspStream/Pipeline.antt =====
-- `rtsp_saver` of src/rtsp_stream.c: the pipeline of a camera, as the sequence of the calls of
-- GStreamer, of which an argument says whether they succeed.
pub mod Links
pub mod Built
pub mod Life
pub mod Tests
use uav_mission_server.Prelude.{
  ℕ, zero, suc, ◌+◌, Bool, true, false, not, ◌&&◌, ◌||◌, List, [], ◌∷◌, ◌++◌, Option, none, some,
  map, if◌then◌else◌, codes, ◌==◌, String,
}
use uav_mission_server.Prelude.Int.{ℤ}
use uav_mission_server.Prelude.Libc.{str_eq}
use uav_mission_server.RtspStream.{RtspConfig}

-- The elements that `gst_data_t` points to.
pub data Element : Type 0 where
  source tee jpg_queue jpg_depay jpg_parse jpg_decoder jpg_convert jpg_scale jpg_encoder jpg_sink :
      Element
  mp4_queue mp4_depay mp4_parse mp4_decoder mp4_convert mp4_scale mp4_encoder mp4_mux mp4_osel :
      Element
  mp4_sink fake_sink : Element

-- The pads that `mp4_osel` is asked for.
pub data Request : Type 0 where
  first second : Request

pub data Value : Type 0 where
  number : ℕ → Value
  text : Option (List ℕ) → Value
  pad : Request → Value

pub data Call : Type 0 where
  make : Element → List ℕ → Call
  add_many : List Element → Call
  set : Element → String → Value → Call
  link_many : List Element → Call
  -- With the caps of the images: the format, the width and the height.
  link_filtered : Element → Element → Option (List ℕ) → ℤ → ℤ → Call
  connect : Element → String → Call
  request_pad : Request → Call
  link_pad : Request → Element → Call
  add_probe : Element → Call
  forward_messages : Call
  set_playing : Call

-- A call whose result is not looked at; one that ends the process if it fails; the elements that are all
-- made before the check that none of them is missing; and a text that is followed.
pub data Instruction : Type 0 where
  call must : Call → Instruction
  make_all : List (Element × List ℕ) → Instruction
  use_text : Option (List ℕ) → Instruction

-- The process ends, the camera is ready, or a text without a value is followed, with the calls made
-- until then, newest first.
pub data Setup : Type 0 where
  exits ready faults : List Call → Setup

-- Makes all the elements, and says whether each was made.
make_each : (Call → Bool) → List (Element × List ℕ) → List Call → List Call × Bool
make_each succeeds [] done = (done, true)
make_each succeeds ((e, factory) ∷ more) done =
    let (done', all) = make_each succeeds more (make e factory ∷ done) in
    (done', succeeds (make e factory) && all)

pub execute : (Call → Bool) → List Instruction → List Call → Setup
unfolding make_each
execute succeeds [] done = ready done
execute succeeds (call c ∷ more) done = execute succeeds more (c ∷ done)
execute succeeds (must c ∷ more) done =
    let rest = execute succeeds more (c ∷ done) in if succeeds c then rest else exits (c ∷ done)
execute succeeds (use_text none ∷ more) done = faults done
execute succeeds (use_text (some t) ∷ more) done = execute succeeds more done
execute succeeds (make_all elements ∷ more) done =
    let (done', all) = make_each succeeds elements done in
    let rest = execute succeeds more done' in if all then rest else exits done'

-- The names fit the buffers of 20 bytes that `snprintf` writes them to, for both codecs.
abbrev around : String → List ℕ → String → List ℕ
around front codec back = codes front ++ codec ++ codes back

abbrev pub elements : List ℕ → Bool → List (Element × List ℕ)
elements codec rb5_codec =
    let depay = around "rtp" codec "depay" in
    let parser = around "" codec "parse" in
    let decoder = if rb5_codec then codes "qtivdec" else around "avdec_" codec "" in
    (source, codes "rtspsrc")
    ∷ (tee, codes "tee")
    ∷ (jpg_queue, codes "queue")
    ∷ (jpg_depay, depay)
    ∷ (jpg_parse, parser)
    ∷ (jpg_decoder, decoder)
    ∷ (jpg_convert, codes "videoconvert")
    ∷ (jpg_scale, codes "videoscale")
    ∷ (jpg_encoder, codes "jpegenc")
    ∷ (jpg_sink, codes "appsink")
    ∷ (mp4_queue, codes "queue")
    ∷ (mp4_depay, depay)
    ∷ (mp4_parse, parser)
    ∷ (mp4_decoder, decoder)
    ∷ (mp4_convert, codes "videoconvert")
    ∷ (mp4_scale, codes "videoscale")
    ∷ (mp4_encoder, codes "x264enc")
    ∷ (mp4_mux, codes "mp4mux")
    ∷ (mp4_osel, codes "output-selector")
    ∷ (mp4_sink, codes "filesink")
    ∷ (fake_sink, codes "fakesink")
    ∷ []

abbrev turbo : Bool → Element → List Instruction
turbo rb5_codec decoder =
    if rb5_codec
    then call (set decoder "skip-frames" (number 1)) ∷ call (set decoder "turbo" (number 1)) ∷ []
    else []

-- The branch of the images, and of the videos.
abbrev pub jpeg_branch : Option (List ℕ) → ℤ → ℤ → Bool → List Instruction
jpeg_branch video_format width height rb5_codec =
    call (set jpg_encoder "quality" (number 90)) ∷ []
    ++ turbo rb5_codec jpg_decoder
    ++ (call (set jpg_sink "emit-signals" (number 1))
        ∷ must (
            link_many (
              tee ∷ jpg_queue ∷ jpg_depay ∷ jpg_parse ∷ jpg_decoder ∷ jpg_convert ∷ jpg_scale ∷ []))
        ∷ must (link_filtered jpg_scale jpg_encoder video_format width height)
        ∷ must (link_many (jpg_encoder ∷ jpg_sink ∷ []))
        ∷ call (connect source "pad-added")
        ∷ call (connect jpg_sink "new-sample")
        ∷ [])

abbrev pub mp4_branch : Bool → List Instruction
mp4_branch rb5_codec =
    call (set mp4_encoder "tune" (number 4)) ∷ []
    ++ turbo rb5_codec mp4_decoder
    ++ (call (set mp4_sink "location" (text (some (codes "/tmp/.empty.mp4"))))
        ∷ must (
            link_many (
              tee ∷ mp4_queue ∷ mp4_depay ∷ mp4_parse ∷ mp4_decoder ∷ mp4_convert ∷ mp4_scale
              ∷ mp4_encoder ∷ mp4_mux ∷ mp4_osel ∷ []))
        ∷ call (request_pad first)
        ∷ call (request_pad second)
        ∷ must (link_pad first mp4_sink)
        ∷ must (link_pad second fake_sink)
        ∷ call (set mp4_osel "resend-latest" (number 1))
        ∷ call (set mp4_sink "async" (number 0))
        ∷ call (set fake_sink "async" (number 0))
        ∷ call (set mp4_sink "sync" (number 0))
        ∷ call (set fake_sink "sync" (number 0))
        ∷ call (set mp4_osel "active-pad" (pad second))
        ∷ call (add_probe mp4_mux)
        ∷ [])

pub all_elements : List Element
all_elements =
    source ∷ tee ∷ jpg_queue ∷ jpg_depay ∷ jpg_parse ∷ jpg_decoder ∷ jpg_convert ∷ jpg_scale
    ∷ jpg_encoder ∷ jpg_sink ∷ mp4_queue ∷ mp4_depay ∷ mp4_parse ∷ mp4_decoder ∷ mp4_convert
    ∷ mp4_scale ∷ mp4_encoder ∷ mp4_mux ∷ mp4_osel ∷ mp4_sink ∷ fake_sink ∷ []

abbrev pub is_rb5 : List ℕ → Bool
is_rb5 board_name = str_eq (codes "rb5") board_name

abbrev pub is_codec : List ℕ → Bool
is_codec codec = str_eq (codes "h264") codec || str_eq (codes "h265") codec

pub instructions : RtspConfig → List ℕ → Bool → List Instruction
unfolding all_elements
instructions s codec rb5_codec =
    (make_all (elements codec rb5_codec)
      ∷ use_text s.video_format
      ∷ use_text s.rtsp_stream_url
      ∷ call (set source "location" (text s.rtsp_stream_url))
      ∷ call (set source "latency" (number 0))
      ∷ call (add_many all_elements)
      ∷ [])
    ++ jpeg_branch s.video_format s.image_width s.image_height rb5_codec
    ++ mp4_branch rb5_codec
    ++ call forward_messages ∷ call set_playing ∷ []

abbrev pub with_board : (Call → Bool) → RtspConfig → List ℕ → Option (List ℕ) → Setup
with_board succeeds s codec none = faults []
with_board succeeds s codec (some board_name) =
    execute succeeds (instructions s codec (is_rb5 board_name)) []

abbrev pub with_codec : (Call → Bool) → RtspConfig → Option (List ℕ) → Setup
with_codec succeeds s none = faults []
with_codec succeeds s (some codec) =
    if is_codec codec then with_board succeeds s codec s.board_name else exits []

-- Up to `camera_ready = true`.
pub rtsp_saver : (Call → Bool) → RtspConfig → Setup
unfolding execute instructions
rtsp_saver succeeds s = with_codec succeeds s s.codec

-- A pad of the source that appears: whether the tee is linked behind the call, and whether a failure
-- is reported.
pub pad_added_handler : Bool → Bool → Bool × Bool
pad_added_handler is_linked links = if is_linked then (true, false) else (links, not links)
