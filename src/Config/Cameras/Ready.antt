-- ===== src/Config/Cameras/Ready.antt =====
-- One camera that is set up: what `siyi_camera_init` leaves in the array, and when it returns.
use uav_mission_server.Prelude.{
  ℕ, ◌<◌, ◌≡◌, refl, ap, ◌∙◌, arith, true, List, [], ◌∷◌, ◌++◌, Option, some, Option-cases, inl,
  inr, length, set, set-set, get_elem?-set_self, codes,
}
use uav_mission_server.Prelude.Int.{pos, word}
use uav_mission_server.Prelude.Outcomes.{Outcome, ok, exited, fault, ◌>>=◌}
use uav_mission_server.RtspStream.{RtspConfig, rtsp_open, sprintf, path_max}
use uav_mission_server.Device.{
  live, device_present, run_operation, camera_open, gimbal_open, camera_zoom, gimbal_centering,
}
use uav_mission_server.Device.Requests.{
  Driven, camera_open-run, gimbal_open-run, camera_zoom-run, gimbal_centering-run,
}
use uav_mission_server.SiyiCamera.{siyi_cam_manual_zoom, siyi_cam_gimbal_centering}
use uav_mission_server.SiyiCamera.Frame.{frame}
use uav_mission_server.SiyiCamera.Layout.{
  siyi_cam_manual_zoom-frame, siyi_cam_gimbal_centering-frame,
}
use uav_mission_server.SiyiCamera.Operations.{
  SiyiCamConfig, World, Camera, Cameras, open_camera, siyi_cam_open, send, siyi_cam_ops,
}
use uav_mission_server.SiyiCamera.Operations.Closing.{Entry}
use uav_mission_server.Config.Cameras.{SiyiConfigs, Startup, load_siyi_configs}

abbrev pub driven_entry : Camera → Entry
driven_entry device' = record { device = device'; camera_ops = some siyi_cam_ops }

-- The array with a device of the driver at `n`.
abbrev pub holding : Cameras → ℕ → Camera → Cameras
holding cameras n device' = set cameras n (driven_entry device')

bind_ok :
    (m : Outcome Camera) (k h : Camera → Cameras)
    → ((c : Camera) → k c ≡ h c)
    → (m >>= λ c. ok (k c)) ≡ (m >>= λ c. ok (h c))
bind_ok (ok c) k h e = ap ok (e c)
bind_ok exited k h e = refl
bind_ok fault k h e = refl

module _ (cameras : Cameras) (n : ℕ) (lt : n < length cameras) where
  held : (c : Camera) → Driven (holding cameras n c) n (driven_entry c) siyi_cam_ops
  held c = record { here = get_elem?-set_self cameras n (driven_entry c) lt; driver = refl }

  run_held :
      (f : World → Camera → Outcome Camera) (w : World) (c : Camera)
      → run_operation (some f) w (pos n) (driven_entry c) (holding cameras n c)
        ≡ (f w c >>= λ c'. ok (holding cameras n c'))
  run_held f w c = bind_ok (f w c) _ _ (λ c'. set-set cameras n (driven_entry c) (driven_entry c'))

  pub open_held :
      (w : World) (config : RtspConfig) (c : Camera)
      → camera_open w (pos n) config (holding cameras n c)
        ≡ (open_camera config w c >>= λ c'. ok (holding cameras n c'))
  unfolding siyi_cam_ops
  open_held w config c =
      camera_open-run w n (holding cameras n c) (driven_entry c) siyi_cam_ops (held c) config
      ∙ run_held (open_camera config) w c

  pub gimbal_open_held :
      (w : World) (config : SiyiCamConfig) (c : Camera)
      → gimbal_open w (pos n) config (holding cameras n c)
        ≡ (siyi_cam_open config w c >>= λ c'. ok (holding cameras n c'))
  unfolding siyi_cam_ops
  gimbal_open_held w config c =
      gimbal_open-run w n (holding cameras n c) (driven_entry c) siyi_cam_ops (held c) config
      ∙ run_held (siyi_cam_open config) w c

  module _ (c : Camera) (present : device_present c ≡ true) (w : World) where
    zoom_held :
        camera_zoom w (pos n) 1 0 (holding cameras n c)
        ≡ (send (siyi_cam_manual_zoom 1 0) w c >>= λ c'. ok (holding cameras n c'))
    unfolding siyi_cam_ops
    zoom_held =
        camera_zoom-run w n (holding cameras n c) (driven_entry c) siyi_cam_ops (held c) present 1 0
        ∙ run_held (send (siyi_cam_manual_zoom 1 0)) w c

    centering_held :
        gimbal_centering w (pos n) (holding cameras n c)
        ≡ (send siyi_cam_gimbal_centering w c >>= λ c'. ok (holding cameras n c'))
    unfolding siyi_cam_ops
    centering_held =
        gimbal_centering-run w n (holding cameras n c) (driven_entry c) siyi_cam_ops (held c)
          present
        ∙ run_held (send siyi_cam_gimbal_centering) w c

-- The calls of the system succeed, that to the address and the port of the gimbal among them.
pub record Succeeds (s : Startup) (configs : SiyiConfigs) (fd : ℕ) : Type 0 where
  pub camera_allocated : s.camera.allocated ≡ true
  pub gimbal_allocated : s.gimbal.allocated ≡ true
  pub socket : s.gimbal.socket ≡ some fd
  pub ip : List ℕ
  pub address : configs.siyi_cam_config.ip ≡ some ip
  pub connected : s.gimbal.connected ip (word 16 configs.siyi_cam_config.port) ≡ true

-- The file of the camera is there and can be read.
pub record Loads (s : Startup) (yaml : Option (List ℕ)) (configs : SiyiConfigs) : Type 0 where
  pub name : List ℕ
  pub path : List ℕ
  pub given : yaml ≡ some name
  pub fits : sprintf path_max (codes "configs/" ++ name) ≡ some path
  pub loaded : load_siyi_configs (s.files path) s.before ≡ ok configs

-- A camera that is set up: open with its configurations, with two messages sent.
abbrev pub ready_device : ℕ → SiyiConfigs → ℕ → Camera
ready_device n configs fd = record {
  id = pos n;
  camera_priv = live (rtsp_open (pos n) configs.rtsp_config);
  gimbal_priv = live (record {
    fd = fd;
    peer = configs.siyi_cam_config;
    sent = frame 0x08 (1 ∷ []) ∷ frame 0x0f (1 ∷ 0 ∷ []) ∷ [];
  });
}

pub opens :
    (w : World) (config : RtspConfig) (c c' : Camera)
    → open_camera config w c ≡ ok c'
    → (w.allocated ≡ true) × (c' ≡ record c { camera_priv = live (rtsp_open c.id config) })
opens w config c c' e = (ground arith, ground arith)

pub connects :
    (w : World) (config : SiyiCamConfig) (c c' : Camera)
    → siyi_cam_open config w c ≡ ok c'
    → (fd : ℕ) × (w.allocated ≡ true)
      × (w.socket ≡ some fd)
      × (ip : List ℕ) × (config.ip ≡ some ip)
      × (w.connected ip (word 16 config.port) ≡ true)
      × (c' ≡ record c { gimbal_priv = live (record { fd = fd; peer = config; sent = [] }) })
unfolding siyi_cam_open
connects w config c c' e = elim (Option-cases w.socket) [
  | inl missing ↦ absurd (ground arith)
  | inr (fd, is) ↦ elim (Option-cases config.ip) [
    | inl unset ↦ absurd (ground arith)
    | inr (ip, given) ↦ (fd, ground arith, is, ip, given, ground arith, ground arith)
  ]
]

-- Behind the two calls that open the parts, the two messages go out.
abbrev pub opened_device : ℕ → SiyiConfigs → ℕ → Camera
opened_device n configs fd = record {
  id = pos n;
  camera_priv = live (rtsp_open (pos n) configs.rtsp_config);
  gimbal_priv = live (record { fd = fd; peer = configs.siyi_cam_config; sent = [] });
}

pub requests :
    (cameras : Cameras) (n : ℕ) (w : World) (configs : SiyiConfigs) (fd : ℕ)
    → n < length cameras
    → (camera_zoom w (pos n) 1 0 (holding cameras n (opened_device n configs fd))
        >>= gimbal_centering w (pos n))
      ≡ ok (holding cameras n (ready_device n configs fd))
requests cameras n w configs fd lt =
    let c : Camera = opened_device n configs fd in
    let c' : Camera = record c {
      gimbal_priv =
          live (record {
            fd = fd;
            peer = configs.siyi_cam_config;
            sent = frame 0x0f (1 ∷ 0 ∷ []) ∷ [];
          });
    } in
    ap (λ m. m >>= gimbal_centering w (pos n))
      (zoom_held cameras n lt c refl w
        ∙ ap (λ f. send f w c >>= λ c'. ok (holding cameras n c'))
            (siyi_cam_manual_zoom-frame 1 0 (omega arith) (omega arith)))
    ∙ centering_held cameras n lt c' refl w
    ∙ ap (λ f. send f w c' >>= λ c'. ok (holding cameras n c')) siyi_cam_gimbal_centering-frame
