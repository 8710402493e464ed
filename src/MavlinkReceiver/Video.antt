-- ===== src/MavlinkReceiver/Video.antt =====
-- The commands that start and stop a video, and what `video_status` says of the recording.
use mathlib.Core.Path.{subst}
use uav_mission_server.Prelude.{
  ℕ, ◌≡◌, refl, sym, ap, ◌∙◌, ◌⊎◌, arith, Bool, true, false, not, [], ◌∷◌, some, get_elem?, set,
}
use uav_mission_server.Prelude.Int.{pos}
use uav_mission_server.Prelude.Outcomes.{Outcome, ok, ◌>>=◌}
use uav_mission_server.RtspStream.{GstData, rtsp_change_record_state, restarted, eos_sent}
use uav_mission_server.RtspStream.Timestamp.{Tm}
use uav_mission_server.Device.{live, camera_change_record_state}
use uav_mission_server.Device.Requests.{Driven, camera_change_record_state-run}
use uav_mission_server.SiyiCamera.Operations.{World, Cameras, siyi_cam_ops}
use uav_mission_server.SiyiCamera.Operations.Closing.{Entry}
use uav_mission_server.MavlinkPublisher.{
  Numbers, mavlink_send_ack, mavlink_send_msg, get_video_status, set_video_status,
}
use uav_mission_server.MavlinkReceiver.{
  MavlinkMessage, Fcu, on_link, accept, change_if, start_video, mav_command_long,
}

-- The first camera is an open SIYI camera with this data.
pub record Camera (cameras : Cameras) (data' : GstData) : Type 0 where
  pub entry : Entry
  pub driven : Driven cameras 0 entry siyi_cam_ops
  pub priv : entry.device.camera_priv ≡ live data'

pub set_first :
    (xs : Cameras) (d e : Entry) → get_elem? xs 0 ≡ some d → get_elem? (set xs 0 e) 0 ≡ some e
set_first [] d e h = cc
set_first (x ∷ xs) d e h = refl

-- A change of the recording, at the camera.
changes :
    (w : World) (cameras : Cameras) (before after' : GstData)
    → Camera cameras before
    → rtsp_change_record_state w.now before ≡ some after'
    → (cameras' : Cameras) × (camera_change_record_state w (pos 0) cameras ≡ ok cameras')
      × Camera cameras' after'
unfolding siyi_cam_ops
changes w cameras before after' c e =
    let d = c.entry in
    let d' : Entry = record d { device = record d.device { camera_priv = live after' } } in
    (
      set cameras 0 d',
      camera_change_record_state-run w 0 cameras d siyi_cam_ops c.driven (ground (arith, c.priv))
          ∙ rw (c.priv, e) refl,
      record {
        entry = d';
        driven = record { here = set_first cameras d d' c.driven.here; driver = c.driven.driver };
        priv = refl;
      },
    )

-- A recording that has begun, to the file of its name, and one that has ended and is being saved.
abbrev pub Begun : GstData → GstData → Type 0
Begun before after' =
    (after'.recording ≡ true)
    × (after'.busy ≡ false)
    × (after'.log ≡ restarted after'.location ∷ before.log)

abbrev pub Ended : GstData → GstData → Type 0
Ended before after' =
    (after'.recording ≡ false)
    × (after'.busy ≡ true)
    × (after'.location ≡ before.location)
    × (after'.log ≡ eos_sent ∷ before.log)

refuses :
    (now : Tm) (d : GstData)
    → (d.camera_ready ≡ false) ⊎ (d.busy ≡ true)
    → rtsp_change_record_state now d ≡ some d
unfolding rtsp_change_record_state
refuses now d h = ground arith

module _ (mav : Numbers) (w : World) where
  accepted_status :
      (command : ℕ) (msg : MavlinkMessage) (fcu : Fcu)
      → (accept mav w command msg fcu).link.video_status ≡ fcu.link.video_status
  unfolding mavlink_send_ack mavlink_send_msg
  accepted_status command msg fcu = refl

  command_start :
      (msg : MavlinkMessage) (fcu : Fcu)
      → msg.command ≡ 2500
      → mav_command_long mav w msg fcu ≡ start_video mav w msg fcu
  unfolding mav_command_long
  command_start msg fcu h = rw h refl

  -- `change_if` at the camera.
  change_if-changes :
      (fcu : Fcu) (before after' : GstData)
      → Camera fcu.cameras before
      → rtsp_change_record_state w.now before ≡ some after'
      → (cameras' : Cameras) × (change_if mav w true fcu ≡ ok (record fcu { cameras = cameras' }))
        × Camera cameras' after'
  change_if-changes fcu before after' c e =
      let (cameras', changed, camera) = changes w fcu.cameras before after' c e in
      (cameras', ap (λ m. m >>= λ x. ok (record fcu { cameras = x })) changed, camera)

  -- The state behind a command, with the status of the video and the data of the camera.
  abbrev pub Ends : Outcome Fcu → Bool → GstData → Type 0
  Ends outcome status after' =
      (fcu' : Fcu) × (outcome ≡ ok fcu')
      × (fcu'.link.video_status ≡ status)
      × Camera fcu'.cameras after'

  start_video-changes :
      (msg : MavlinkMessage) (fcu : Fcu) (before after' : GstData)
      → Camera fcu.cameras before
      → fcu.link.video_status ≡ false
      → rtsp_change_record_state w.now before ≡ some after'
      → Ends (start_video mav w msg fcu) true after'
  unfolding get_video_status set_video_status
  start_video-changes msg fcu before after' c status e =
      let f = accept mav w 2500 msg fcu in
      let (cameras', changed, camera) = change_if-changes f before after' c e in
      (
        on_link set_video_status (record f { cameras = cameras' }),
        ap (λ b. change_if mav w (not b) f >>= λ x. ok (on_link set_video_status x)) status
            ∙ ap (λ m. m >>= λ x. ok (on_link set_video_status x)) changed,
        refl,
        camera,
      )

  -- At a camera that is not ready, or still saves the last video, the command to start a video is
  -- accepted and sets the status, and nothing is recorded.
  mav_command_long_desync :
      (msg : MavlinkMessage) (fcu : Fcu) (d : GstData)
      → Camera fcu.cameras d
      → (d.camera_ready ≡ false) ⊎ (d.busy ≡ true)
      → fcu.link.video_status ≡ false
      → msg.command ≡ 2500
      → Ends (mav_command_long mav w msg fcu) true d
  mav_command_long_desync msg fcu d c h status start =
      subst (λ o. Ends o true d) (sym (command_start msg fcu start))
        (start_video-changes msg fcu d d c status (refuses w.now d h))
