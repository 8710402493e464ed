-- ===== src/RtspStream/Snapshots.antt =====
-- Images saved from the samples of the stream.
use uav_mission_server.Prelude.{
  ℕ, suc, ◌+◌, ◌≤◌, ◌≡◌, refl, ap, ◌∙◌, arith, Bool, true, false, List, [], ◌∷◌, Option, none, some,
  length, if◌then◌else◌,
}
use uav_mission_server.Prelude.Options.{◌>>=◌}
use uav_mission_server.Prelude.Int.{ℤ}
use uav_mission_server.RtspStream.Timestamp.{Tm, IsTime, generate_timestamp_fits}
use uav_mission_server.RtspStream.{
  RtspConfig, GstData, Saving, eos_sent, restarted, image_saved, eos_handler, on_new_sample_handler,
  rtsp_save_image, rtsp_change_record_state, rtsp_open, file_name, snprintf, path_max,
}
use uav_mission_server.RtspStream.Recording.{
  Step, image, record_state, muxed, sample, ready, Reachable, from_open, after,
}

abbrev pub images : List Saving → ℕ
images [] = 0
images (eos_sent ∷ log) = images log
images (restarted name ∷ log) = images log
images (image_saved name jpeg ∷ log) = suc (images log)

-- Images saved, and the one that is asked for.
abbrev pub granted : GstData → ℕ
granted d = images d.log + (if d.snapshot_request then 1 else 0)

abbrev pub requests : {d d' : GstData} → Step d d' → ℕ
requests (image d) = 1
requests (record_state now d d' e) = 0
requests (muxed e d) = 0
requests (sample jpeg now is_open d d' e) = 0
requests (ready d) = 0

-- The calls of `rtsp_save_image` on the way to a state.
abbrev pub requested : {id : ℤ} {args : RtspConfig} {d : GstData} → Reachable id args d → ℕ
requested from_open = 0
requested (after r step) = requested r + requests step

sample-granted :
    (jpeg : Option (List ℕ)) (now : Tm) (is_open : Bool) (d d' : GstData)
    → on_new_sample_handler jpeg now is_open d ≡ some d'
    → granted d' ≡ granted d
unfolding on_new_sample_handler
sample-granted none now is_open d d' e = ground arith
sample-granted (some jpeg) now is_open d d' e = ground arith

step-granted : {d d' : GstData} (step : Step d d') → granted d' ≤ granted d + requests step
unfolding rtsp_save_image eos_handler rtsp_change_record_state
step-granted (image d) = ground arith
step-granted (record_state now d d' e) = ground arith
step-granted (muxed e d) = ground arith
step-granted (sample jpeg now is_open d d' e) =
    omega (arith, sample-granted jpeg now is_open d d' e)
step-granted (ready d) = omega arith

granted-requested :
    {id : ℤ} {args : RtspConfig} {d : GstData} (r : Reachable id args d) → granted d ≤ requested r
unfolding rtsp_open
granted-requested from_open = omega arith
granted-requested (after r step) = omega (arith, granted-requested r, step-granted step)

-- However the events at a camera are ordered, no more images are saved than were asked for.
images_requested :
    (id : ℤ) (args : RtspConfig) (d : GstData) (r : Reachable id args d)
    → images d.log ≤ requested r
images_requested id args d r = omega (arith, granted-requested r)

-- The file of an image.
abbrev pub image_name : List ℕ → List ℕ → List ℕ
image_name path timestamp = snprintf path_max (file_name path timestamp ".jpg")

-- A request at a camera that is ready and has a path to save to is answered by the next sample, up to
-- the year 9999 and if the file can be opened: its data is saved, once, since a sample behind it saves
-- nothing.
pub rtsp_save_image-on_new_sample_handler :
    (d : GstData) (path jpeg later : List ℕ) (now : Tm) (is_open : Bool)
    → d.camera_ready ≡ true
    → d.rtsp_config.save_path ≡ some path
    → IsTime now
    → (timestamp : List ℕ) × (saved again : GstData) × (on_new_sample_handler
          (some jpeg)
          now
          true
          (rtsp_save_image d)
        ≡ some saved)
      × (saved.log ≡ image_saved (image_name path timestamp) jpeg ∷ d.log)
      × (on_new_sample_handler (some later) now is_open saved ≡ some again)
      × (again.log ≡ saved.log)
unfolding rtsp_save_image on_new_sample_handler
rtsp_save_image-on_new_sample_handler d path jpeg later now is_open ready' set' time =
    let (timestamp, stamped, fits) = generate_timestamp_fits now time in
    let saved : GstData = record d {
      snapshot_request = false;
      log = image_saved (image_name path timestamp) jpeg ∷ d.log;
    } in
    (
      timestamp,
      saved,
      record saved { held = saved.held + 1 },
      rw (ready', stamped, set') refl,
      refl,
      refl,
      refl,
    )

-- Samples pulled while no image is asked for.
abbrev pub samples : List (List ℕ) → Tm → GstData → Option GstData
samples [] now d = some d
samples (jpeg ∷ more) now d = on_new_sample_handler (some jpeg) now true d >>= samples more now

sample_held :
    (jpeg : List ℕ) (now : Tm) (d : GstData)
    → d.snapshot_request ≡ false
    → on_new_sample_handler (some jpeg) now true d ≡ some (record d { held = d.held + 1 })
unfolding on_new_sample_handler
sample_held jpeg now d quiet = ground arith

-- A sample that is pulled while no image is asked for is never given back, so that with every frame
-- of the stream one more of them is held.
samples_held :
    (jpegs : List (List ℕ)) (now : Tm) (d : GstData)
    → d.snapshot_request ≡ false
    → (d' : GstData) × (samples jpegs now d ≡ some d') × (d'.held ≡ d.held + length jpegs)
samples_held [] now d quiet = (d, refl, omega arith)
samples_held (jpeg ∷ more) now d quiet =
    let (d', runs, held) = samples_held more now (record d { held = d.held + 1 }) quiet in
    (
      d',
      ap (λ m. m >>= samples more now) (sample_held jpeg now d quiet) ∙ runs,
      omega (arith, held),
    )
