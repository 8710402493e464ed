-- ===== src/RtspStream/Events.antt =====
-- What the threads of GStreamer do at a camera, one event after the other.
use uav_mission_server.Prelude.{
  false, ◌∷◌, ◌+◌, ℕ, ◌≡◌, refl, inl, inr, Bool, true, List, Option, none, some, Bool-cases,
}
use uav_mission_server.RtspStream.Timestamp.{Tm, IsTime, generate_timestamp_fits}
use uav_mission_server.RtspStream.{
  image_saved, snprintf, path_max, file_name, GstData, eos_handler, on_new_sample_handler,
}
use uav_mission_server.RtspStream.Changes.{Room}

-- The pipeline comes up (`camera_ready = true` in `rtsp_saver`), an event passes the muxer, and a sample
-- of the image branch, with the time and whether its file can be opened.
pub data CameraEvent : Type 0 where
  comes_up : CameraEvent
  muxed : Bool → CameraEvent
  new_sample : Option (List ℕ) → Tm → Bool → CameraEvent

unfoldable pub at_camera : CameraEvent → GstData → Option GstData
at_camera comes_up d = some (record d { camera_ready = true })
at_camera (muxed is_eos) d = some (eos_handler is_eos d)
at_camera (new_sample sample now opened) d = on_new_sample_handler sample now opened d

-- The year of a sample has four digits, and its file can be opened.
abbrev pub Fine : CameraEvent → Type 0
Fine comes_up = Unit {0}
Fine (muxed is_eos) = Unit {0}
Fine (new_sample sample now opened) = IsTime now × (opened ≡ true)

eos_config : (is_eos : Bool) (d : GstData) → (eos_handler is_eos d).rtsp_config ≡ d.rtsp_config
unfolding eos_handler
eos_config is_eos d = elim (Bool-cases is_eos) [
  | inr other ↦ rw other refl
  | inl eos ↦ elim (Bool-cases d.busy) [
    | inl busy ↦ rw (eos, busy) refl
    | inr idle ↦ rw (eos, idle) refl
  ]
]

-- An event is handled, and the configuration is kept.
pub at_camera_returns :
    (e : CameraEvent) (d : GstData)
    → Fine e
    → Room d
    → (d' : GstData) × (at_camera e d ≡ some d') × (d'.rtsp_config ≡ d.rtsp_config)
unfolding at_camera on_new_sample_handler
at_camera_returns comes_up d fine room = (record d { camera_ready = true }, refl, refl)
at_camera_returns (muxed is_eos) d fine room = (eos_handler is_eos d, refl, eos_config is_eos d)
at_camera_returns (new_sample none now opened) d fine room = (d, refl, refl)
at_camera_returns (new_sample (some jpeg) now opened) d fine room =
    elim (Bool-cases d.snapshot_request) [
      | inr quiet ↦ (record d { held = d.held + 1 }, rw quiet refl, refl)
      | inl asked ↦
          (let (timestamp, stamped, size) = generate_timestamp_fits now fine.0 in
            (
              record d {
                snapshot_request = false;
                log =
                    image_saved (snprintf path_max (file_name room.0 timestamp ".jpg")) jpeg
                    ∷ d.log;
              },
              rw (asked, stamped, room.1, fine.1) refl,
              refl,
            ))
    ]
