-- ===== src/RtspStream/Recording.antt =====
-- The recording of videos under every order of the events on the threads.
use uav_mission_server.Prelude.{
  ℕ, ◌≡◌, refl, ◌⊎◌, inl, arith, Bool, true, false, ◌||◌, ◌&&◌, List, Option, none, some,
}
use uav_mission_server.Prelude.Int.{ℤ}
use uav_mission_server.RtspStream.Timestamp.{Tm}
use uav_mission_server.RtspStream.{
  RtspConfig, Pad, osel_src1, osel_src2, GstData, eos_handler, on_new_sample_handler,
  rtsp_save_image, rtsp_change_record_state, start_recording, rtsp_open,
}

-- One event at a camera: a request to save an image or to change the recording, an event that
-- passes the muxer, a sample of the image branch, and the pipeline coming up.
pub data Step : GstData → GstData → Type 0 where
  image : (d : GstData) → Step d (rtsp_save_image d)
  record_state : (now : Tm) (d d' : GstData) → rtsp_change_record_state now d ≡ some d' → Step d d'
  muxed : (is_eos : Bool) (d : GstData) → Step d (eos_handler is_eos d)
  sample :
      (jpeg : Option (List ℕ)) (now : Tm) (opened : Bool) (d d' : GstData)
      → on_new_sample_handler jpeg now opened d ≡ some d'
      → Step d d'
  ready : (d : GstData) → Step d (record d { camera_ready = true })

-- The states that a camera comes to from the one it is opened in.
pub data Reachable (id : ℤ) (args : RtspConfig) : GstData → Type 0 where
  from_open : Reachable id args (rtsp_open id args)
  after : {d d' : GstData} → Reachable id args d → Step d d' → Reachable id args d'

abbrev pad_for : Bool → Pad
pad_for true = osel_src1
pad_for false = osel_src2

-- Videos go to the file from the start of a recording until its end is saved, and only then; a
-- video that is being saved is no longer recorded, and the file is the one that was named last.
pub record Consistent (d : GstData) : Type 0 where
  pub exclusive : (d.busy && d.recording) ≡ false
  pub pad : d.active_pad ≡ pad_for (d.recording || d.busy)
  pub file : ((d.recording || d.busy) ≡ false) ⊎ (d.location ≡ d.mp4_file_name)

start_recording-Consistent :
    (now : Tm) (d d' : GstData)
    → start_recording now d ≡ some d'
    → d.busy ≡ false
    → d.recording ≡ false
    → Consistent d'
start_recording-Consistent now d d' e idle stopped = record {
  exclusive = ground arith;
  pad = ground arith;
  file = ground arith;
}

-- What the handler of samples leaves alone.
sample_frame :
    (jpeg : Option (List ℕ)) (now : Tm) (opened : Bool) (d d' : GstData)
    → on_new_sample_handler jpeg now opened d ≡ some d'
    → (d'.recording ≡ d.recording)
      × (d'.busy ≡ d.busy)
      × (d'.active_pad ≡ d.active_pad)
      × (d'.location ≡ d.location)
      × (d'.mp4_file_name ≡ d.mp4_file_name)
unfolding on_new_sample_handler
sample_frame none now opened d d' e = ground arith
sample_frame (some jpeg) now opened d d' e = ground arith

-- A video goes on, or it is saved.
abbrev pub Continues : GstData → GstData → Type 0
Continues d d' =
    (d'.location ≡ d.location)
    × (d'.mp4_file_name ≡ d.mp4_file_name)
    × ((d'.recording || d'.busy ≡ true)
        ⊎ ((d.busy ≡ true) × (d'.recording || d'.busy ≡ false) × (d'.active_pad ≡ osel_src2)))

-- While a video is recorded or saved no event gives it another file, and only the end of the stream
-- behind a request to stop takes the stream from it.
step-Continues :
    (d d' : GstData) → Step d d' → Consistent d → d.recording || d.busy ≡ true → Continues d d'
unfolding rtsp_save_image rtsp_change_record_state eos_handler
step-Continues d _ (image _) c h = ground (arith, c.exclusive)
step-Continues d d' (record_state now _ _ e) c h = ground (arith, c.exclusive)
step-Continues d _ (muxed e _) c h = ground (arith, c.exclusive)
step-Continues d d' (sample jpeg now opened _ _ e) c h =
    let (recording, busy, pad, location, name) = sample_frame jpeg now opened d d' e in
    ground (arith, c.exclusive)
step-Continues d _ (ready _) c h = (refl, refl, inl h)
