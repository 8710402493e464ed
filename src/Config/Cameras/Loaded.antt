-- ===== src/Config/Cameras/Loaded.antt =====
-- All the cameras of a file.
use mathlib.Core.Path.{subst}
use uav_mission_server.Prelude.{
  ℕ, suc, ◌+◌, ◌≤◌, ◌<◌, ◌≡◌, ◌≢◌, refl, sym, ap, ◌∙◌, arith, List, [], ◌∷◌, Option, none, some,
  length, length-set, get_elem?, set,
}
use uav_mission_server.Prelude.Outcomes.{ok, >>=-eq-ok, ok_injective}
use uav_mission_server.Device.{camera_num_max}
use uav_mission_server.SiyiCamera.Operations.{Cameras}
use uav_mission_server.Config.Yaml.{Event, load, read_param, load_inv}
use uav_mission_server.Config.Cameras.{
  DeviceConfig, DeviceField, Startup, no_device_configs, set_device_field, set_device,
  device_setter, find_device, device_params, init_device, init_devices, load_devices_configs,
}
use uav_mission_server.Config.Cameras.Rounds.{Configured, Each, Each-map, init_device-Round}

-- What the loop does from the device `n` on.
init_devices-Configured :
    (s : ℕ → Startup) (n : ℕ) (devs : List DeviceConfig) (cameras cameras' : Cameras)
    → n + length devs ≤ camera_num_max
    → length cameras ≡ camera_num_max
    → init_devices s n devs cameras ≡ ok cameras'
    → Each (λ m d. Configured (s m) m d (get_elem? cameras m) (get_elem? cameras' m)) n devs
      × ((m : ℕ) → m < n → get_elem? cameras' m ≡ get_elem? cameras m)
      × (length cameras' ≡ camera_num_max)
unfolding init_devices
init_devices-Configured s n [] cameras cameras' le size e =
    let same : cameras' ≡ cameras = sym (ok_injective e) in
    (tt, λ m lt. ap (λ l. get_elem? l m) same, ap length same ∙ size)
init_devices-Configured s n (d ∷ devs) cameras cameras' le size e =
    let (middle, first, rest) =
      >>=-eq-ok (init_device (s n) n d cameras) (init_devices s (suc n) devs) cameras' e in
    let r = init_device-Round (s n) n d cameras middle (omega arith) size first in
    let (each, below, size') =
      init_devices-Configured s (suc n) devs middle cameras' (omega arith) r.size rest in
    (
      (
        subst (Configured (s n) n d (get_elem? cameras n)) (sym (below n (omega arith))) r.here,
        Each-map _ _ (suc n) devs
            (λ m d' beyond h.
              subst (λ b. Configured (s m) m d' b (get_elem? cameras' m))
                (r.elsewhere m (above m beyond)) h)
            each,
      ),
      λ m lt. below m (omega arith) ∙ r.elsewhere m (beneath m lt),
      size',
    )
  where
    above : (m : ℕ) → suc n ≤ m → n ≢ m
    above m h e' = omega arith

    beneath : (m : ℕ) → m < n → n ≢ m
    beneath m h e' = omega arith

length-set_device :
    (n : ℕ) (field : DeviceField) (value : List ℕ) (found : Option DeviceConfig)
    (devs devs' : List DeviceConfig)
    → set_device n field value found devs ≡ ok devs'
    → length devs' ≡ length devs
length-set_device n field value none devs devs' e = cc
length-set_device n field value (some d) devs devs' e =
    let (d', fine, is) =
      >>=-eq-ok (set_device_field field value d) (λ d'. ok (set devs n d')) devs' e in
    ap length (sym (ok_injective is)) ∙ length-set devs n d'

setter_length :
    (found : Option (ℕ × DeviceField)) (value : List ℕ) (devs devs' : List DeviceConfig)
    → read_param (device_setter found) value devs ≡ ok devs'
    → length devs' ≡ length devs
setter_length none value devs devs' e = cc
setter_length (some (n, field)) value devs devs' e =
    length-set_device n field value (get_elem? devs n) devs devs' e

pub length-read_param :
    (key value : List ℕ) (devs devs' : List DeviceConfig)
    → length devs ≡ camera_num_max
    → read_param (device_params key) value devs ≡ ok devs'
    → length devs' ≡ camera_num_max
unfolding device_params
length-read_param key value devs devs' size e =
    setter_length (find_device camera_num_max 0 key) value devs devs' e ∙ size

-- Where the cameras are loaded from a file, each of the six devices came out as its configuration
-- says: one that is not enabled, or of the type `none`, is as it was; one of the type `siyi` has its
-- own file, of which the camera and the gimbal are open, with zoom 1.0 and the centering sent; and
-- none has another type.
pub load_devices_configs-Configured :
    (s : ℕ → Startup) (file : Option (List Event)) (cameras cameras' : Cameras)
    → length cameras ≡ camera_num_max
    → load_devices_configs s file cameras ≡ ok cameras'
    → (events : List Event) × (devs : List DeviceConfig) × (file ≡ some events)
      × (load device_params events no_device_configs ≡ ok devs)
      × (length devs ≡ camera_num_max)
      × (length cameras' ≡ camera_num_max)
      × Each (λ n d. Configured (s n) n d (get_elem? cameras n) (get_elem? cameras' n)) 0 devs
unfolding load_devices_configs
load_devices_configs-Configured s none cameras cameras' size e = cc
load_devices_configs-Configured s (some events) cameras cameras' size e =
    let (devs, loaded, started) =
      >>=-eq-ok (load device_params events no_device_configs)
        (λ devs. init_devices s 0 devs cameras) cameras' e in
    let whole =
      load_inv device_params (λ ds. length ds ≡ camera_num_max) length-read_param events
        no_device_configs devs refl loaded in
    let (each, below, size') =
      init_devices-Configured s 0 devs cameras cameras' (omega (arith, whole)) size started in
    (events, devs, refl, loaded, whole, size', each)
