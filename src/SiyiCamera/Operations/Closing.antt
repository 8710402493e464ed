-- ===== src/SiyiCamera/Operations/Closing.antt =====
-- What closing leaves behind: the pointers still count as set.
use uav_mission_server.Prelude.{ℕ, ◌<◌, ◌≡◌, refl, ◌∙◌, arith, set, length, get_elem?-set_self}
use uav_mission_server.Prelude.Int.{pos}
use uav_mission_server.Prelude.Outcomes.{ok, fault}
use uav_mission_server.RtspStream.{GstData, RtspConfig}
use uav_mission_server.Device.{
  live, freed, CameraDev, camera_close, camera_save_image, camera_change_record_state,
}
use uav_mission_server.Device.Requests.{
  Driven, camera_close-run, camera_save_image-run, camera_change_record_state-run,
}
use uav_mission_server.SiyiCamera.Operations.{
  SiyiCamDev, SiyiCamConfig, World, Cameras, siyi_cam_ops,
}

abbrev pub Entry : Type 0
Entry = CameraDev World GstData SiyiCamDev RtspConfig SiyiCamConfig

abbrev after_close : Entry → Entry
after_close d = record d { device = record d.device { camera_priv = freed } }

-- `camera_close` at an open SIYI camera returns, and each later request to save an image, to change
-- the recording or to close again uses the memory that it freed, since the pointer is not cleared and
-- the device counts as present.
pub camera_close-faults :
    (w : World) (n : ℕ) (devs : Cameras) (d : Entry) (data' : GstData)
    → Driven devs n d siyi_cam_ops
    → d.device.camera_priv ≡ live data'
    → n < length devs
    → (devs' : Cameras) × (camera_close w (pos n) devs ≡ ok devs')
      × (camera_save_image w (pos n) devs' ≡ fault)
      × (camera_change_record_state w (pos n) devs' ≡ fault)
      × (camera_close w (pos n) devs' ≡ fault)
unfolding siyi_cam_ops
camera_close-faults w n devs d data' h opened lt =
    let devs' : Cameras = set devs n (after_close d) in
    let left : Driven devs' n (after_close d) siyi_cam_ops = record {
      here = get_elem?-set_self devs n (after_close d) lt;
      driver = h.driver;
    } in
    (
      devs',
      camera_close-run w n devs d siyi_cam_ops h (ground (arith, opened)) ∙ rw opened refl,
      camera_save_image-run w n devs' (after_close d) siyi_cam_ops left refl,
      camera_change_record_state-run w n devs' (after_close d) siyi_cam_ops left refl,
      camera_close-run w n devs' (after_close d) siyi_cam_ops left refl,
    )
