-- ===== src/MavlinkReceiver/Messages/Open.antt =====
-- The operations at a SIYI camera that is open: each returns, and the camera is still open behind it.
use uav_mission_server.Prelude.{
  ℕ, ◌<◌, ◌^◌, ◌≡◌, refl, ap, ◌∙◌, inl, inr, arith, Bool-cases, true, [], ◌∷◌, ◌++◌, set,
}
use uav_mission_server.Prelude.Int.{ℤ, pos, word}
use uav_mission_server.Prelude.Outcomes.{Outcome, ok}
use uav_mission_server.RtspStream.Timestamp.{IsTime}
use uav_mission_server.RtspStream.{GstData, rtsp_save_image}
use uav_mission_server.Device.{
  live, device_present, camera_save_image, camera_change_record_state, camera_zoom, gimbal_rotate,
}
use uav_mission_server.Device.Requests.{
  Driven, camera_save_image-run, camera_change_record_state-run, camera_zoom-run, gimbal_rotate-run,
}
use uav_mission_server.RtspStream.Changes.{Room, record_returns}
use uav_mission_server.SiyiCamera.Frame.{frame, little_endian}
use uav_mission_server.SiyiCamera.Layout.{siyi_cam_manual_zoom-frame, siyi_cam_gimbal_rotate-frame}
use uav_mission_server.SiyiCamera.Operations.{SiyiCamDev, World, Cameras, siyi_cam_ops}
use uav_mission_server.SiyiCamera.Operations.Closing.{Entry}
use uav_mission_server.MavlinkReceiver.Video.{set_first}

-- The first camera is a SIYI camera that is open, with its gimbal.
pub record Open (cameras : Cameras) : Type 0 where
  pub entry : Entry
  pub data' : GstData
  pub siyi : SiyiCamDev
  pub driven : Driven cameras 0 entry siyi_cam_ops
  pub camera : entry.device.camera_priv ≡ live data'
  pub gimbal : entry.device.gimbal_priv ≡ live siyi
  pub room : Room data'

-- A call that returns, and leaves the camera open.
abbrev pub Stays : Outcome Cameras → Type 0
Stays outcome = (cameras' : Cameras) × (outcome ≡ ok cameras') × Open cameras'

saved_config : (d : GstData) → (rtsp_save_image d).rtsp_config ≡ d.rtsp_config
unfolding rtsp_save_image
saved_config d = elim (Bool-cases d.camera_ready) [
  | inl ready ↦ rw ready refl
  | inr not_ready ↦ rw not_ready refl
]

module _ (cameras : Cameras) (o : Open cameras) where
  present : device_present o.entry.device ≡ true
  present = ground (arith, o.camera)

  -- The array with the first camera changed.
  abbrev camera_set : GstData → Cameras
  camera_set d =
      set cameras 0 (record o.entry { device = record o.entry.device { camera_priv = live d } })

  abbrev gimbal_set : SiyiCamDev → Cameras
  gimbal_set s =
      set cameras 0 (record o.entry { device = record o.entry.device { gimbal_priv = live s } })

  pub camera_set-Open : (d : GstData) → d.rtsp_config ≡ o.data'.rtsp_config → Open (camera_set d)
  camera_set-Open d same = record {
    entry = record o.entry { device = record o.entry.device { camera_priv = live d } };
    data' = d;
    siyi = o.siyi;
    driven = record { here = set_first cameras o.entry _ o.driven.here; driver = o.driven.driver };
    camera = refl;
    gimbal = o.gimbal;
    room = (o.room.0, ap (λ c. c.save_path) same ∙ o.room.1, o.room.2);
  }

  gimbal_set-Open : (s : SiyiCamDev) → Open (gimbal_set s)
  gimbal_set-Open s = record {
    entry = record o.entry { device = record o.entry.device { gimbal_priv = live s } };
    data' = o.data';
    siyi = s;
    driven = record { here = set_first cameras o.entry _ o.driven.here; driver = o.driven.driver };
    camera = o.camera;
    gimbal = refl;
    room = o.room;
  }

module _ (w : World) (cameras : Cameras) (o : Open cameras) where
  pub camera_save_image-Stays : Stays (camera_save_image w (pos 0) cameras)
  unfolding siyi_cam_ops
  camera_save_image-Stays = (
    camera_set cameras o (rtsp_save_image o.data'),
    camera_save_image-run w 0 cameras o.entry siyi_cam_ops o.driven (present cameras o)
        ∙ rw o.camera refl,
    camera_set-Open cameras o (rtsp_save_image o.data') (saved_config o.data'),
  )

  pub camera_change_record_state-Stays :
      IsTime w.now → Stays (camera_change_record_state w (pos 0) cameras)
  unfolding siyi_cam_ops
  camera_change_record_state-Stays time =
      let (d, changed, same) = record_returns w.now o.data' time o.room in
      (
        camera_set cameras o d,
        camera_change_record_state-run w 0 cameras o.entry siyi_cam_ops o.driven (present cameras o)
            ∙ rw (o.camera, changed) refl,
        camera_set-Open cameras o d same,
      )

  pub camera_zoom-Stays :
      (zi zd : ℕ) → zi < 2 ^ 8 → zd < 2 ^ 8 → Stays (camera_zoom w (pos 0) zi zd cameras)
  unfolding siyi_cam_ops
  camera_zoom-Stays zi zd hi hd = (
    gimbal_set cameras o (record o.siyi { sent = frame 0x0f (zi ∷ zd ∷ []) ∷ o.siyi.sent }),
    camera_zoom-run w 0 cameras o.entry siyi_cam_ops o.driven (present cameras o) zi zd
        ∙ rw (siyi_cam_manual_zoom-frame zi zd hi hd, o.gimbal) refl,
    gimbal_set-Open cameras o _,
  )

  pub gimbal_rotate-Stays : (yaw pitch : ℤ) → Stays (gimbal_rotate w (pos 0) yaw pitch cameras)
  unfolding siyi_cam_ops
  gimbal_rotate-Stays yaw pitch = (
    gimbal_set cameras o (record o.siyi {
      sent =
          frame 0x0e (little_endian (word 16 yaw) ++ little_endian (word 16 pitch)) ∷ o.siyi.sent;
    }),
    gimbal_rotate-run w 0 cameras o.entry siyi_cam_ops o.driven (present cameras o) yaw pitch
        ∙ rw (siyi_cam_gimbal_rotate-frame yaw pitch, o.gimbal) refl,
    gimbal_set-Open cameras o _,
  )
