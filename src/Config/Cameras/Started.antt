-- ===== src/Config/Cameras/Started.antt =====
-- When `siyi_camera_init` returns, and with what.
use uav_mission_server.Prelude.{
  get_elem?_lt, ℕ, ◌<◌, ◌≡◌, refl, sym, ap, ◌∙◌, ◌↔◌, arith, List, ◌++◌, Option, none, some, length,
  codes, false, ◌||◌,
}
use uav_mission_server.Prelude.Int.{pos, ltb_ℤ, leb_ℤ}
use uav_mission_server.Prelude.Outcomes.{Outcome, ok, ◌>>=◌, >>=-eq-ok, ok_injective}
use uav_mission_server.RtspStream.{GstData, rtsp_open, sprintf, path_max}
use uav_mission_server.Device.{
  Pointer, camera_num_max, register_camera, camera_open, gimbal_open, camera_zoom, gimbal_centering,
  live,
}
use uav_mission_server.SiyiCamera.Operations.{
  SiyiCamDev, Camera, Cameras, or_fault, register_siyi_camera, open_camera, siyi_cam_open,
}
use uav_mission_server.Config.Cameras.{SiyiConfigs, Startup, load_siyi_configs, siyi_camera_init}
use uav_mission_server.Config.Cameras.Ready.{
  holding, Succeeds, Loads, ready_device, opened_device, opens, connects, requests, open_held,
  gimbal_open_held,
}

in_range :
    (n : ℕ)
    → n < camera_num_max
    → (ltb_ℤ (pos n) (pos 0) || leb_ℤ (pos camera_num_max) (pos n)) ≡ false
in_range n lt = ground arith

module _ (cameras : Cameras) (n : ℕ) (size : length cameras ≡ camera_num_max)
    (lt : n < camera_num_max) where
  inside : n < length cameras
  inside = omega arith

  -- What the device holds that is registered again, and the same with the camera open.
  abbrev registered_device : Pointer GstData → Pointer SiyiCamDev → Camera
  registered_device p g = record { id = pos n; camera_priv = p; gimbal_priv = g }

  registers :
      (p : Pointer GstData) × (g : Pointer SiyiCamDev) × (register_siyi_camera (pos n) cameras
        ≡ ok (holding cameras n (registered_device p g)))
  unfolding register_siyi_camera register_camera
  registers =
      let (d, at) = get_elem?_lt cameras n inside in
      (d.device.camera_priv, d.device.gimbal_priv, rw (in_range n lt) (rw at refl))

  module _ (s : Startup) (configs : SiyiConfigs) where
    -- The calls behind the registration.
    abbrev behind : Cameras → Outcome Cameras
    behind registered = do
      opened ← camera_open s.camera (pos n) configs.rtsp_config registered
      connected ← gimbal_open s.gimbal (pos n) configs.siyi_cam_config opened
      zoomed ← camera_zoom s.gimbal (pos n) 1 0 connected
      gimbal_centering s.gimbal (pos n) zoomed

    module _ (p : Pointer GstData) (g : Pointer SiyiCamDev) where
      abbrev streaming : Camera
      streaming = registered_device (live (rtsp_open (pos n) configs.rtsp_config)) g

      behind-ok :
          (fd : ℕ)
          → Succeeds s configs fd
          → behind (holding cameras n (registered_device p g))
            ≡ ok (holding cameras n (ready_device n configs fd))
      unfolding siyi_cam_open
      behind-ok fd h =
          let opened : camera_open s.camera (pos n) configs.rtsp_config
                (holding cameras n (registered_device p g))
              ≡ ok (holding cameras n streaming) =
            open_held cameras n inside s.camera configs.rtsp_config (registered_device p g)
            ∙ rw h.camera_allocated refl in
          let connected : gimbal_open s.gimbal (pos n) configs.siyi_cam_config
                (holding cameras n streaming)
              ≡ ok (holding cameras n (opened_device n configs fd)) =
            gimbal_open_held cameras n inside s.gimbal configs.siyi_cam_config streaming
            ∙ rw (h.gimbal_allocated, h.socket, h.address, h.connected) refl in
          rw opened (rw connected (requests cameras n s.gimbal configs fd inside))

      behind-eq-ok :
          (cameras' : Cameras)
          → behind (holding cameras n (registered_device p g)) ≡ ok cameras'
          → (fd : ℕ) × Succeeds s configs fd
            × (cameras' ≡ holding cameras n (ready_device n configs fd))
      behind-eq-ok cameras' e =
          let (a, at_a, e1) =
            >>=-eq-ok
              (camera_open s.camera (pos n) configs.rtsp_config
                (holding cameras n (registered_device p g)))
              _ cameras' e in
          let (b, at_b, e2) =
            >>=-eq-ok (gimbal_open s.gimbal (pos n) configs.siyi_cam_config a) _ cameras' e1 in
          let (c1, open1, is1) =
            >>=-eq-ok (open_camera configs.rtsp_config s.camera (registered_device p g))
              (λ c. ok (holding cameras n c)) a
              (sym (open_held cameras n inside s.camera configs.rtsp_config (registered_device p g))
                ∙ at_a) in
          let (allocated, same1) =
            opens s.camera configs.rtsp_config (registered_device p g) c1 open1 in
          let a_is : a ≡ holding cameras n streaming =
            sym (ok_injective is1) ∙ ap (holding cameras n) same1 in
          let (c2, open2, is2) =
            >>=-eq-ok (siyi_cam_open configs.siyi_cam_config s.gimbal streaming)
              (λ c. ok (holding cameras n c)) b
              (sym (gimbal_open_held cameras n inside s.gimbal configs.siyi_cam_config streaming)
                ∙ ap (gimbal_open s.gimbal (pos n) configs.siyi_cam_config) (sym a_is)
                ∙ at_b) in
          let (fd, allocated', socket, ip, address, connected, same2) =
            connects s.gimbal configs.siyi_cam_config streaming c2 open2 in
          let b_is : b ≡ holding cameras n (opened_device n configs fd) =
            sym (ok_injective is2) ∙ ap (holding cameras n) same2 in
          (
            fd,
            record {
              camera_allocated = allocated;
              gimbal_allocated = allocated';
              socket = socket;
              ip = ip;
              address = address;
              connected = connected;
            },
            ok_injective (
                sym e2
                ∙ ap (λ x. camera_zoom s.gimbal (pos n) 1 0 x >>= gimbal_centering s.gimbal (pos n))
                    b_is
                ∙ requests cameras n s.gimbal configs fd inside),
          )

    set_up-ok :
        (fd : ℕ)
        → Succeeds s configs fd
        → (register_siyi_camera (pos n) cameras >>= behind)
          ≡ ok (holding cameras n (ready_device n configs fd))
    set_up-ok fd h =
        let (p, g, registered) = registers in ap (λ m. m >>= behind) registered ∙ behind-ok p g fd h

    set_up-eq-ok :
        (cameras' : Cameras)
        → (register_siyi_camera (pos n) cameras >>= behind) ≡ ok cameras'
        → (fd : ℕ) × Succeeds s configs fd
          × (cameras' ≡ holding cameras n (ready_device n configs fd))
    set_up-eq-ok cameras' e =
        let (p, g, registered) = registers in
        behind-eq-ok p g cameras' (sym (ap (λ m. m >>= behind) registered) ∙ e)

  or_fault-eq-ok : {A : Type 0} (o : Option A) (a : A) → or_fault o ≡ ok a → o ≡ some a
  or_fault-eq-ok none a e = cc
  or_fault-eq-ok (some b) a e = cc

  Loads-set_up :
      (s : Startup) (yaml : Option (List ℕ)) (configs : SiyiConfigs)
      → Loads s yaml configs
      → siyi_camera_init s (pos n) yaml cameras
        ≡ (register_siyi_camera (pos n) cameras >>= behind s configs)
  unfolding siyi_camera_init
  Loads-set_up s yaml configs h = rw (h.given, h.fits, h.loaded) refl

  -- The set-up of a SIYI camera with a number in range returns exactly if its file has a name and can
  -- be read as configurations, these have an address for the gimbal, in the file or in what was in
  -- memory, and every call of the system succeeds, with `connect` to this address and port. Then the
  -- camera is open with these configurations, its gimbal is connected by them, zoom 1.0 and the
  -- centering have been sent to it in this order and nothing else, whatever stood there before, and all
  -- other cameras are as they were. The thread that `camera_open` makes for the stream is not part of it.
  pub siyi_camera_init_iff :
      (s : Startup) (yaml : Option (List ℕ)) (cameras' : Cameras)
      → (siyi_camera_init s (pos n) yaml cameras ≡ ok cameras') ↔ (
          (configs : SiyiConfigs) × (fd : ℕ) × Loads s yaml configs
          × Succeeds s configs fd
          × (cameras' ≡ holding cameras n (ready_device n configs fd)))
  unfolding siyi_camera_init
  siyi_camera_init_iff s yaml cameras' = (
    λ e.
        let (name, given, e1) = >>=-eq-ok (or_fault yaml) _ cameras' e in
        let (path, fits, e2) =
          >>=-eq-ok (or_fault (sprintf path_max (codes "configs/" ++ name))) _ cameras' e1 in
        let (configs, loaded, e3) =
          >>=-eq-ok (load_siyi_configs (s.files path) s.before) _ cameras' e2 in
        let (fd, succeeds, is) = set_up-eq-ok s configs cameras' e3 in
        (
          configs,
          fd,
          record {
            name = name;
            path = path;
            given = or_fault-eq-ok _ name given;
            fits = or_fault-eq-ok _ path fits;
            loaded = loaded;
          },
          succeeds,
          is,
        ),
    λ h.
        let (configs, fd, loads, succeeds, is) = h in
        Loads-set_up s yaml configs loads ∙ set_up-ok s configs fd succeeds ∙ ap ok (sym is),
  )
