-- ===== src/Config/Cameras/Returns.antt =====
-- When the cameras of a file are set up at all.
use uav_mission_server.Prelude.{
  ℕ, suc, ◌+◌, ◌≤◌, ◌<◌, ◌≡◌, refl, ap, ◌∙◌, ◌↔◌, ◌⊎◌, inl, inr, arith, true, false, List, [], ◌∷◌,
  Option, some, length, codes, get_elem?,
}
use uav_mission_server.Prelude.Libc.{str_eq, str_eq_refl}
use uav_mission_server.Prelude.Outcomes.{ok, ◌>>=◌}
use uav_mission_server.Device.{camera_num_max}
use uav_mission_server.SiyiCamera.Operations.{Cameras}
use uav_mission_server.Config.Yaml.{Event, load, load_inv}
use uav_mission_server.Config.Cameras.{
  SiyiConfigs, DeviceConfig, Startup, no_device_configs, device_params, init_kind, init_device,
  init_devices, load_devices_configs,
}
use uav_mission_server.Config.Cameras.Ready.{holding, ready_device}
use uav_mission_server.Config.Cameras.Started.{siyi_camera_init_iff}
use uav_mission_server.Config.Cameras.Rounds.{
  Idle, Siyi, Configured, Each, Each-map, init_siyi, init_none, init_enabled, init_disabled,
  init_device-Round,
}
use uav_mission_server.Config.Cameras.Loaded.{length-read_param, load_devices_configs-Configured}

-- The device asks for no camera, or for one that can be set up.
abbrev pub Startable : Startup → DeviceConfig → Type 0
Startable s d = Idle d ⊎ ((configs : SiyiConfigs) × (fd : ℕ) × Siyi s d configs fd)

apart_kinds : str_eq (codes "siyi") (codes "none") ≡ false
unfolding str_eq
apart_kinds = refl

module _ (s : Startup) (n : ℕ) (d : DeviceConfig) (cameras : Cameras) (lt : n < camera_num_max)
    (size : length cameras ≡ camera_num_max) where
  Starts : Type 0
  Starts = (cameras' : Cameras) × (init_device s n d cameras ≡ ok cameras')

  starts_enabled :
      (k : List ℕ) (cameras' : Cameras)
      → d.enabled ≡ true
      → d.kind ≡ some k
      → init_kind s n (some k) d cameras ≡ ok cameras'
      → Starts
  unfolding Starts
  starts_enabled k cameras' enabled kind e = (
    cameras',
    init_enabled s n d cameras cameras lt size enabled
        ∙ ap (λ o. init_kind s n o d cameras) kind
        ∙ e,
  )

  starts : Startable s d → Starts
  unfolding Starts
  starts (inl (inl disabled)) = (cameras, init_disabled s n d cameras cameras lt size disabled)
  starts (inl (inr (enabled, kind))) = starts_enabled (codes "none") cameras enabled kind (
      init_none s n d cameras cameras lt size (codes "none") apart_kinds
        (str_eq_refl (codes "none")))
  starts (inr (configs, fd, (enabled, kind, loads, succeeds))) =
      let done : Cameras = holding cameras n (ready_device n configs fd) in
      starts_enabled (codes "siyi") done enabled kind (
        init_siyi s n d cameras done lt size (codes "siyi") (str_eq_refl (codes "siyi"))
        ∙ (siyi_camera_init_iff cameras n size lt s d.yaml done).1
            (configs, fd, loads, succeeds, refl))

init_devices_returns :
    (s : ℕ → Startup) (n : ℕ) (devs : List DeviceConfig) (cameras : Cameras)
    → n + length devs ≤ camera_num_max
    → length cameras ≡ camera_num_max
    → Each (λ m d. Startable (s m) d) n devs
    → (cameras' : Cameras) × (init_devices s n devs cameras ≡ ok cameras')
unfolding init_devices Starts
init_devices_returns s n [] cameras le size h = (cameras, refl)
init_devices_returns s n (d ∷ devs) cameras le size (first, more) =
    let (middle, started) = starts (s n) n d cameras (omega arith) size first in
    let round = init_device-Round (s n) n d cameras middle (omega arith) size started in
    let (cameras', rest) =
      init_devices_returns s (suc n) devs middle (omega arith) round.size more in
    (cameras', ap (λ m. m >>= init_devices s (suc n) devs) started ∙ rest)

startable :
    (s : Startup) (n : ℕ) (d : DeviceConfig) (cameras cameras' : Cameras)
    → Configured s n d (get_elem? cameras n) (get_elem? cameras' n)
    → Startable s d
startable s n d cameras cameras' (inl (idle, same)) = inl idle
startable s n d cameras cameras' (inr (configs, fd, siyi, is)) = inr (configs, fd, siyi)

-- The server starts with its cameras exactly if the file of the devices can be read and each of them
-- is not enabled, or of the type `none`, or a SIYI camera whose own file can be read, which then has an
-- address for its gimbal, and for which every call of the system succeeds. Otherwise the process ends
-- or goes wrong. The threads that the cameras make for their streams are not part of it.
pub load_devices_configs_iff :
    (s : ℕ → Startup) (file : Option (List Event)) (cameras : Cameras)
    → length cameras ≡ camera_num_max
    → ((cameras' : Cameras) × (load_devices_configs s file cameras ≡ ok cameras')) ↔ (
        (events : List Event) × (devs : List DeviceConfig) × (file ≡ some events)
        × (load device_params events no_device_configs ≡ ok devs)
        × Each (λ n d. Startable (s n) d) 0 devs)
unfolding load_devices_configs
load_devices_configs_iff s file cameras size = (
  λ h.
      let (cameras', e) = h in
      let (events, devs, given, loaded, whole, size', each) =
        load_devices_configs-Configured s file cameras cameras' size e in
      (
        events,
        devs,
        given,
        loaded,
        Each-map _ _ 0 devs (λ n d le c. startable (s n) n d cameras cameras' c) each,
      ),
  λ h.
      let (events, devs, given, loaded, each) = h in
      let whole =
        load_inv device_params (λ ds. length ds ≡ camera_num_max) length-read_param events
          no_device_configs devs refl loaded in
      let (cameras', started) =
        init_devices_returns s 0 devs cameras (omega (arith, whole)) size each in
      (
        cameras',
        ap (λ f. load_devices_configs s f cameras) given
            ∙ ap (λ m. m >>= λ ds. init_devices s 0 ds cameras) loaded
            ∙ started,
      ),
)
