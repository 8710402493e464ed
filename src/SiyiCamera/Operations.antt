-- ===== src/SiyiCamera/Operations.antt =====
-- src/siyi_camera.c as a driver: `siyi_cam_ops`, whose operations of the camera are those of
-- src/rtsp_stream.c.
pub mod Requests
pub mod Closing
pub mod Tests
use uav_mission_server.Prelude.{
  ℕ, Bool, true, false, List, [], ◌∷◌, Option, none, some, if◌then◌else◌,
}
use uav_mission_server.Prelude.Int.{ℤ, word}
use uav_mission_server.Prelude.Outcomes.{Outcome, ok, exited, fault, ◌>>=◌}
use uav_mission_server.RtspStream.Timestamp.{Tm}
use uav_mission_server.RtspStream.{
  RtspConfig, GstData, rtsp_open, rtsp_save_image, rtsp_change_record_state,
}
use uav_mission_server.Device.{
  Pointer, null, live, freed, Device, CameraOperations, CameraDev, Call, register_camera,
}
use uav_mission_server.SiyiCamera.{
  siyi_cam_manual_zoom, siyi_cam_gimbal_rotate, siyi_cam_gimbal_centering,
}

-- `struct siyi_cam_config`. An address that was not set is `none`, and following it is a fault.
pub record SiyiCamConfig : Type 0 where
  pub ip : Option (List ℕ)
  pub port : ℤ

-- `struct siyi_cam_dev`, with the configuration that its socket is connected by, and the messages handed
-- to `send`, newest first.
pub record SiyiCamDev : Type 0 where
  pub fd : ℕ
  pub peer : SiyiCamConfig
  pub sent : List (List ℕ)

-- What the system gives to an operation: the time, whether `malloc` succeeds, the descriptor of
-- `socket`, and whether `connect` succeeds to what `inet_addr` gives for a text, and a port.
pub record World : Type 0 where
  pub now : Tm
  pub allocated : Bool
  pub socket : Option ℕ
  pub connected : List ℕ → ℕ → Bool

abbrev pub Camera : Type 0
Camera = Device GstData SiyiCamDev

abbrev pub Cameras : Type 0
Cameras = List (CameraDev World GstData SiyiCamDev RtspConfig SiyiCamConfig)

-- What a pointer points to.
abbrev pub follow : {A : Type 0} → Pointer A → Outcome A
follow null = fault
follow (live a) = ok a
follow freed = fault

abbrev pub or_fault : {A : Type 0} → Option A → Outcome A
or_fault none = fault
or_fault (some a) = ok a

-- `rtsp_open` writes to what `malloc` gave without a check.
abbrev pub open_camera : RtspConfig → World → Camera → Outcome Camera
open_camera args w cam =
    if w.allocated then ok (record cam { camera_priv = live (rtsp_open cam.id args) }) else fault

abbrev pub close_camera : World → Camera → Outcome Camera
close_camera w cam = follow cam.camera_priv >>= λ data'. ok (record cam { camera_priv = freed })

abbrev pub save_image : World → Camera → Outcome Camera
save_image w cam = follow cam.camera_priv >>= λ data'.
    ok (record cam { camera_priv = live (rtsp_save_image data') })

abbrev pub change_record_state : World → Camera → Outcome Camera
change_record_state w cam = do
  data' ← follow cam.camera_priv
  changed ← or_fault (rtsp_change_record_state w.now data')
  ok (record cam { camera_priv = live changed })

abbrev pub connect_gimbal : SiyiCamConfig → World → ℕ → Option (List ℕ) → Camera → Outcome Camera
connect_gimbal config w fd none cam = fault
connect_gimbal config w fd (some ip) cam =
    if w.connected ip (word 16 config.port)
    then ok (record cam { gimbal_priv = live (record { fd = fd; peer = config; sent = [] }) })
    else exited

abbrev pub open_socket : SiyiCamConfig → World → Option ℕ → Camera → Outcome Camera
open_socket config w none cam = exited
open_socket config w (some fd) cam = connect_gimbal config w fd config.ip cam

-- `memset` uses what `malloc` gave before the check for NULL. The address is followed behind `socket`,
-- and `htons` takes the port as 16 bits.
unfoldable pub siyi_cam_open : SiyiCamConfig → World → Camera → Outcome Camera
siyi_cam_open config w cam = if w.allocated then open_socket config w w.socket cam else fault

pub siyi_cam_close : World → Camera → Outcome Camera
siyi_cam_close w cam = follow cam.gimbal_priv >>= λ siyi. ok (record cam { gimbal_priv = freed })

-- `send` to the socket of the gimbal; its result is not looked at.
abbrev pub send : Option (List ℕ) → World → Camera → Outcome Camera
send message w cam = do
  bytes ← or_fault message
  siyi ← follow cam.gimbal_priv
  ok (record cam { gimbal_priv = live (record siyi { sent = bytes ∷ siyi.sent }) })

unfoldable pub siyi_cam_ops : CameraOperations World GstData SiyiCamDev RtspConfig SiyiCamConfig
unfolding siyi_cam_open siyi_cam_close
siyi_cam_ops = record {
  camera_open = λ args. some (open_camera args);
  camera_close = some close_camera;
  camera_save_image = some save_image;
  camera_change_record_state = some change_record_state;
  camera_zoom =
      λ zoom_integer zoom_decimal. some (send (siyi_cam_manual_zoom zoom_integer zoom_decimal));
  gimbal_open = λ args. some (siyi_cam_open args);
  gimbal_close = some siyi_cam_close;
  gimbal_centering = some (send siyi_cam_gimbal_centering);
  gimbal_rotate = λ yaw pitch. some (send (siyi_cam_gimbal_rotate yaw pitch));
}

unfoldable pub register_siyi_camera : ℤ → Call World GstData SiyiCamDev RtspConfig SiyiCamConfig
unfolding siyi_cam_ops
register_siyi_camera id = register_camera id siyi_cam_ops
