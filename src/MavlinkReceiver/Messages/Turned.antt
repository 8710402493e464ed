-- ===== src/MavlinkReceiver/Messages/Turned.antt =====
-- What the camera is told by a message of the radio channels.
use uav_mission_server.Prelude.{
  ℕ, ◌≡◌, refl, sym, ap, ◌∙◌, List, ◌∷◌, some, length, drop, get_elem?,
}
use mathlib.Core.Path.{subst}
use uav_mission_server.Prelude.Int.{ℤ, pos, negsuc, ◌≤ℤ◌}
use uav_mission_server.Prelude.Outcomes.{ok}
use uav_mission_server.RtspStream.Timestamp.{IsTime}
use uav_mission_server.Device.{live}
use uav_mission_server.Config.Rc.{ConfigRc}
use uav_mission_server.SiyiCamera.Receiver.{Command, from_bytes, receive}
use uav_mission_server.SiyiCamera.Delivery.{signed16}
use uav_mission_server.SiyiCamera.Operations.{SiyiCamDev, World, Cameras}
use uav_mission_server.SiyiCamera.Operations.Closing.{Entry}
use uav_mission_server.SiyiCamera.Operations.Requests.{sends, gimbal_rotate-receive}
use uav_mission_server.MavlinkReceiver.{RcChannels, Fcu}
use uav_mission_server.MavlinkReceiver.Rc.{Floats, Sticks, send_angles, tenths, mav_fcu_rc_channels}
use uav_mission_server.MavlinkReceiver.Angles.{Ordered, Within, steer-Within}
use uav_mission_server.MavlinkReceiver.Video.{set_first}
use uav_mission_server.MavlinkReceiver.Messages.Open.{Open}
use uav_mission_server.MavlinkReceiver.Messages.Radio.{Serving, mav_fcu_rc_channels-send_angles}

-- The conversion to `int16_t` gives one.
pub record Converts (F : Floats) : Type 0 where
  pub low : (x : F.Number) → negsuc 32767 ≤ℤ F.to_int16 x
  pub high : (x : F.Number) → F.to_int16 x ≤ℤ pos 32767

-- The last message that the gimbal of the first camera has sent is received as the command to turn to
-- these angles.
pub record Told (cameras : Cameras) (yaw pitch : ℤ) : Type 0 where
  pub entry : Entry
  pub siyi : SiyiCamDev
  pub message : List ℕ
  pub earlier : List (List ℕ)
  pub command : Command
  pub here : get_elem? cameras 0 ≡ some entry
  pub gimbal : entry.device.gimbal_priv ≡ live siyi
  pub last : siyi.sent ≡ message ∷ earlier
  pub received : receive message ≡ some command
  pub cmd_id : command.cmd_id ≡ 0x0e
  pub yaw_received : signed16 (from_bytes command.payload) ≡ yaw
  pub pitch_received : signed16 (from_bytes (drop 2 command.payload)) ≡ pitch

module _ (F : Floats) (converts : Converts F) (w : World) where
  send_angles-Told :
      (s : Sticks F) (fcu : Fcu)
      → Open fcu.cameras
      → (cameras' : Cameras) × (send_angles F w (s, fcu)
          ≡ ok (s, record fcu { cameras = cameras' }))
        × Told cameras' (tenths F w s.cam_yaw) (tenths F w s.cam_pitch)
  unfolding send_angles
  send_angles-Told s fcu o =
      let (f, c, turned, got, id, yaw, pitch) =
        gimbal_rotate-receive w 0 fcu.cameras o.entry o.siyi o.driven o.gimbal
          (tenths F w s.cam_yaw) (tenths F w s.cam_pitch) (converts.low _) (converts.high _)
          (converts.low _) (converts.high _) in
      (
        sends f 0 o.entry o.siyi fcu.cameras,
        rw turned refl,
        record {
          entry = _;
          siyi = record o.siyi { sent = f ∷ o.siyi.sent };
          message = f;
          earlier = o.siyi.sent;
          command = c;
          here = set_first fcu.cameras o.entry _ o.driven.here;
          gimbal = refl;
          last = refl;
          received = got;
          cmd_id = id;
          yaw_received = yaw;
          pitch_received = pitch;
        },
      )

  -- While the first camera is a SIYI camera that is open with its gimbal, with a path that leaves
  -- room for the names of files, a zoom ratio in its bounds, eighteen radio channels and a year of
  -- four digits, and where `float` orders whole numbers of up to 1024 as they are and the
  -- conversion to `int16_t` gives one: every message of the radio channels is handled to its end,
  -- wherever sticks and buttons stand; the last thing that the camera receives of it is the command
  -- to turn to the angles that are kept, in tenths of a degree; and the yaw is kept between -135
  -- and 135 degrees, the pitch between -90 and 25.
  pub mav_fcu_rc_channels-Told :
      Ordered F
      → (channels : List ConfigRc) (rc : RcChannels) (s : Sticks F) (fcu : Fcu)
      → length channels ≡ 18
      → IsTime w.now
      → Serving F (s, fcu)
      → (s' : Sticks F) × (fcu' : Fcu) × (mav_fcu_rc_channels F w channels rc (s, fcu)
          ≡ ok (s', fcu'))
        × Told fcu'.cameras (tenths F w s'.cam_yaw) (tenths F w s'.cam_pitch)
        × Within F (negsuc 134) (pos 135) s'.cam_yaw
        × Within F (negsuc 89) (pos 25) s'.cam_pitch
  mav_fcu_rc_channels-Told laws channels rc s fcu size time h =
      let (yaw, pitch, recorded, comes, h', same) =
        mav_fcu_rc_channels-send_angles F w time rc channels s fcu size h in
      let (cameras', sent', told) = send_angles-Told recorded.0 recorded.1 h'.1 in
      let (left, right) = steer-Within F laws yaw pitch rc s in
      (
        recorded.0,
        record recorded.1 { cameras = cameras' },
        comes ∙ sent',
        told,
        subst (λ a. Within F (negsuc 134) (pos 135) a) (ap (λ a. a.0) (sym same)) left,
        subst (λ a. Within F (negsuc 89) (pos 25) a) (ap (λ a. a.1) (sym same)) right,
      )
