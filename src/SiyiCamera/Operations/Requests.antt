-- ===== src/SiyiCamera/Operations/Requests.antt =====
-- Requests at a SIYI camera that is open, from device.c to the message that the camera receives.
use uav_mission_server.Prelude.{
  ℕ, ◌<◌, ◌^◌, ◌≡◌, refl, ◌∙◌, arith, true, List, [], ◌∷◌, Option, some, set, drop,
}
use uav_mission_server.Prelude.Int.{ℤ, pos, negsuc, ◌≤ℤ◌}
use uav_mission_server.Prelude.Outcomes.{Outcome, ok}
use uav_mission_server.Device.{
  live, CameraDev, device_present, camera_zoom, gimbal_centering, gimbal_rotate, run_operation,
}
use uav_mission_server.Device.Requests.{
  Driven, camera_zoom-run, gimbal_centering-run, gimbal_rotate-run,
}
use uav_mission_server.SiyiCamera.{
  siyi_cam_manual_zoom, siyi_cam_gimbal_rotate, siyi_cam_gimbal_centering,
}
use uav_mission_server.SiyiCamera.Receiver.{Command, from_bytes, receive}
use uav_mission_server.SiyiCamera.Delivery.{
  Delivers, signed16, siyi_cam_gimbal_rotate-receive, messages-receive,
}
use uav_mission_server.SiyiCamera.Operations.{SiyiCamDev, World, Cameras, siyi_cam_ops, send}
use uav_mission_server.RtspStream.{GstData, RtspConfig}
use uav_mission_server.SiyiCamera.Operations.{SiyiCamConfig}

-- The array with one more message sent by a gimbal.
abbrev pub sends :
    List ℕ
    → ℕ
    → CameraDev World GstData SiyiCamDev RtspConfig SiyiCamConfig
    → SiyiCamDev
    → Cameras
    → Cameras
sends f n d siyi devs = set devs n (record d {
  device = record d.device { gimbal_priv = live (record siyi { sent = f ∷ siyi.sent }) };
})

module _ (w : World) (n : ℕ) (devs : Cameras)
    (d : CameraDev World GstData SiyiCamDev RtspConfig SiyiCamConfig) (siyi : SiyiCamDev)
    (h : Driven devs n d siyi_cam_ops) (gimbal : d.device.gimbal_priv ≡ live siyi) where
  present : device_present d.device ≡ true
  present = ground (arith, gimbal)

  sending :
      (message : Option (List ℕ)) (f : List ℕ)
      → message ≡ some f
      → run_operation (some (send message)) w (pos n) d devs ≡ ok (sends f n d siyi devs)
  sending message f e = rw (e, gimbal) refl

  -- A message that the camera receives as the given command is the only thing that has been sent.
  abbrev pub Commands : Outcome Cameras → ℕ → List ℕ → Type 0
  Commands outcome cmd_id payload =
      (f : List ℕ) × (outcome ≡ ok (sends f n d siyi devs))
      × (receive f ≡ some (record { cmd_id = cmd_id; payload = payload }))

  -- At a SIYI camera whose gimbal is open, a request for a zoom ratio or for centering sends one
  -- message, which the camera receives as that command, and no other device is concerned.
  pub camera_zoom-gimbal_centering-receive :
      (zoom_integer zoom_decimal : ℕ)
      → zoom_integer < 2 ^ 8
      → zoom_decimal < 2 ^ 8
      → Commands
          (camera_zoom w (pos n) zoom_integer zoom_decimal devs)
          0x0f
          (zoom_integer ∷ zoom_decimal ∷ [])
        × Commands (gimbal_centering w (pos n) devs) 0x08 (1 ∷ [])
  unfolding siyi_cam_ops Delivers
  camera_zoom-gimbal_centering-receive zi zd hi hd =
      let ((f, packs, got), speed, (g, centers, got')) =
        messages-receive zi zd (pos 0) (pos 0) hi hd in
      (
        (
          f,
          camera_zoom-run w n devs d siyi_cam_ops h present zi zd
              ∙ sending (siyi_cam_manual_zoom zi zd) f packs,
          got,
        ),
        (
          g,
          gimbal_centering-run w n devs d siyi_cam_ops h present
              ∙ sending siyi_cam_gimbal_centering g centers,
          got',
        ),
      )

  -- A request for a pair of angles within `int16_t` at a SIYI camera whose gimbal is open sends one
  -- message, which the camera receives as the command to turn to these angles.
  pub gimbal_rotate-receive :
      (yaw pitch : ℤ)
      → negsuc 32767 ≤ℤ yaw
      → yaw ≤ℤ pos 32767
      → negsuc 32767 ≤ℤ pitch
      → pitch ≤ℤ pos 32767
      → (f : List ℕ) × (c : Command) × (gimbal_rotate w (pos n) yaw pitch devs
          ≡ ok (sends f n d siyi devs))
        × (receive f ≡ some c)
        × (c.cmd_id ≡ 0x0e)
        × (signed16 (from_bytes c.payload) ≡ yaw)
        × (signed16 (from_bytes (drop 2 c.payload)) ≡ pitch)
  unfolding siyi_cam_ops
  gimbal_rotate-receive yaw pitch lo hi lo' hi' =
      let (f, c, packs, got, id, size, left, right) =
        siyi_cam_gimbal_rotate-receive yaw pitch lo hi lo' hi' in
      (
        f,
        c,
        gimbal_rotate-run w n devs d siyi_cam_ops h present yaw pitch
            ∙ sending (siyi_cam_gimbal_rotate yaw pitch) f packs,
        got,
        id,
        left,
        right,
      )
