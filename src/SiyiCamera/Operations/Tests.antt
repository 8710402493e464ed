-- ===== src/SiyiCamera/Operations/Tests.antt =====
-- A SIYI camera by its number, at known inputs.
use uav_mission_server.Prelude.{
  ℕ, ◌≡◌, refl, arith, true, List, [], ◌∷◌, Option, none, some, codes, get_elem?, drop,
}
use uav_mission_server.Prelude.Int.{pos, negsuc}
use uav_mission_server.Prelude.Outcomes.{Outcome, ok, fault}
use uav_mission_server.RtspStream.{RtspConfig, GstData, rtsp_open}
use uav_mission_server.Device.{
  null, live, freed, CameraOperations, no_devices, device_present, register_camera, open_with,
  dispatch, camera_close, camera_save_image, camera_change_record_state, camera_zoom,
  gimbal_centering, gimbal_rotate,
}
use uav_mission_server.Device.Drivers.{registers, opens, requests}
use uav_mission_server.Device.Reached.{Reached, static, then', dispatch-fault}
use uav_mission_server.Device.Requests.{Driven}
use uav_mission_server.SiyiCamera.Receiver.{Command, receive, from_bytes}
use uav_mission_server.SiyiCamera.Delivery.{signed16}
use uav_mission_server.SiyiCamera.Operations.{
  SiyiCamConfig, SiyiCamDev, World, Camera, Cameras, siyi_cam_ops,
}
use uav_mission_server.SiyiCamera.Operations.Closing.{Entry, camera_close-faults}
use uav_mission_server.SiyiCamera.Operations.Requests.{
  sends, Commands, camera_zoom-gimbal_centering-receive, gimbal_rotate-receive,
}

abbrev world : World
world = record {
  now = record { tm_year = 124; tm_mon = 6; tm_mday = 3; tm_hour = 12; tm_min = 5; tm_sec = 9 };
  allocated = true;
  socket = some 8;
  connected = λ ip port. true;
}

abbrev config : RtspConfig
config = record {
  save_path = some (codes "/tmp");
  codec = some (codes "h264");
  board_name = none;
  rtsp_stream_url = none;
  video_format = none;
  image_width = pos 0;
  image_height = pos 0;
}

abbrev empty : Entry
empty = record {
  device = record { id = pos 0; camera_priv = null; gimbal_priv = null };
  camera_ops = none;
}

abbrev with_camera : Entry → Cameras
with_camera e = e ∷ empty ∷ empty ∷ empty ∷ empty ∷ empty ∷ []

abbrev registered : Entry
registered = record empty { camera_ops = some siyi_cam_ops }

abbrev opened : Entry
opened = record registered {
  device = record registered.device { camera_priv = live (rtsp_open (pos 0) config) };
}

abbrev closed : Entry
closed = record registered { device = record registered.device { camera_priv = freed } }

abbrev siyi : SiyiCamDev
siyi = record { fd = 8; peer = record { ip = none; port = pos 37260 }; sent = [] }

abbrev gimbal : Entry
gimbal = record opened { device = record opened.device { gimbal_priv = live siyi } }

abbrev save_operation :
    CameraOperations World GstData SiyiCamDev RtspConfig SiyiCamConfig
    → Option (World → Camera → Outcome Camera)
save_operation ops = ops.camera_save_image

closed-Reached : Reached (with_camera closed)
unfolding register_camera open_with dispatch siyi_cam_ops
closed-Reached =
    then'
      (then'
        (then' static (registers (pos 0) siyi_cam_ops no_devices (with_camera registered) refl))
        (opens (λ ops. ops.camera_open config) world (pos 0) (with_camera registered)
          (with_camera opened) refl))
      (requests (λ ops. ops.camera_close) world (pos 0) (with_camera opened) (with_camera closed)
        refl)

saving_faults : dispatch save_operation world (pos 0) (with_camera closed) ≡ fault
unfolding dispatch siyi_cam_ops
saving_faults = refl

dispatch-fault_example :
    (d : Entry) × (ops : CameraOperations World GstData SiyiCamDev RtspConfig SiyiCamConfig)
    × (f : World → Camera → Outcome Camera) × (get_elem? (with_camera closed) 0 ≡ some d)
    × (d.camera_ops ≡ some ops)
    × (save_operation ops ≡ some f)
    × (device_present d.device ≡ true)
    × (f world d.device ≡ fault)
dispatch-fault_example =
    dispatch-fault (with_camera closed) save_operation world 0 closed-Reached (omega arith)
      saving_faults

camera_close-faults_example :
    (devs' : Cameras) × (camera_close world (pos 0) (with_camera opened) ≡ ok devs')
    × (camera_save_image world (pos 0) devs' ≡ fault)
    × (camera_change_record_state world (pos 0) devs' ≡ fault)
    × (camera_close world (pos 0) devs' ≡ fault)
camera_close-faults_example =
    camera_close-faults world 0 (with_camera opened) opened (rtsp_open (pos 0) config)
      (record { here = refl; driver = refl }) refl (omega arith)

abbrev in_charge : Driven (with_camera gimbal) 0 gimbal siyi_cam_ops
in_charge = record { here = refl; driver = refl }

camera_zoom-gimbal_centering-receive_example :
    Commands world 0
      (with_camera gimbal)
      gimbal
      siyi
      in_charge
      refl
      (camera_zoom world (pos 0) 2 5 (with_camera gimbal))
      0x0f
      (2 ∷ 5 ∷ [])
    × Commands world 0
        (with_camera gimbal)
        gimbal
        siyi
        in_charge
        refl
        (gimbal_centering world (pos 0) (with_camera gimbal))
        0x08
        (1 ∷ [])
camera_zoom-gimbal_centering-receive_example =
    camera_zoom-gimbal_centering-receive world 0 (with_camera gimbal) gimbal siyi in_charge refl 2 5
      (omega arith) (omega arith)

gimbal_rotate-receive_example :
    (f : List ℕ) × (c : Command) × (gimbal_rotate world
        (pos 0)
        (negsuc 899)
        (pos 250)
        (with_camera gimbal)
      ≡ ok (sends f 0 gimbal siyi (with_camera gimbal)))
    × (receive f ≡ some c)
    × (c.cmd_id ≡ 0x0e)
    × (signed16 (from_bytes c.payload) ≡ negsuc 899)
    × (signed16 (from_bytes (drop 2 c.payload)) ≡ pos 250)
gimbal_rotate-receive_example =
    gimbal_rotate-receive world 0 (with_camera gimbal) gimbal siyi in_charge refl (negsuc 899)
      (pos 250) (omega arith) (omega arith) (omega arith) (omega arith)
