-- ===== src/Config/Cameras.antt =====
-- The cameras of src/config.c: `load_siyi_configs`, `siyi_camera_init` and `load_devices_configs`.
pub mod Files
pub mod Ready
pub mod Started
pub mod Rounds
pub mod Loaded
pub mod Returns
pub mod Tests
use uav_mission_server.Prelude.{
  ℕ, zero, suc, ◌+◌, Bool, false, List, [], ◌∷◌, ◌++◌, Option, none, some, if◌then◌else◌, codes,
  String, get_elem?, set, replicate,
}
use uav_mission_server.Prelude.Int.{ℤ, pos}
use uav_mission_server.Prelude.Libc.{str_eq, atoi}
use uav_mission_server.Prelude.Outcomes.{Outcome, ok, exited, fault, ◌>>=◌}
use uav_mission_server.Config.Yaml.{Event, Params, load, as_bool}
use uav_mission_server.RtspStream.{RtspConfig, sprintf, path_max}
use uav_mission_server.Device.{
  camera_num_max, camera_open, gimbal_open, camera_zoom, gimbal_centering,
}
use uav_mission_server.SiyiCamera.Operations.{
  SiyiCamConfig, World, Cameras, or_fault, register_siyi_camera,
}

-- The two structures that `load_siyi_configs` fills.
pub record SiyiConfigs : Type 0 where
  pub rtsp_config : RtspConfig
  pub siyi_cam_config : SiyiCamConfig

abbrev pub on_rtsp :
    (List ℕ → RtspConfig → RtspConfig) → Option (List ℕ → SiyiConfigs → Outcome SiyiConfigs)
on_rtsp write = some (λ value s. ok (record s { rtsp_config = write value s.rtsp_config }))

abbrev pub on_siyi :
    (List ℕ → SiyiCamConfig → SiyiCamConfig) → Option (List ℕ → SiyiConfigs → Outcome SiyiConfigs)
on_siyi write = some (λ value s. ok (record s { siyi_cam_config = write value s.siyi_cam_config }))

unfoldable pub siyi_params : Params SiyiConfigs
siyi_params key =
    if str_eq key (codes "save_path")
    then on_rtsp (λ value c. record c { save_path = some value })
    else if str_eq key (codes "board")
    then on_rtsp (λ value c. record c { board_name = some value })
    else if str_eq key (codes "rtsp_stream_url")
    then on_rtsp (λ value c. record c { rtsp_stream_url = some value })
    else if str_eq key (codes "video_format")
    then on_rtsp (λ value c. record c { video_format = some value })
    else if str_eq key (codes "codec")
    then on_rtsp (λ value c. record c { codec = some value })
    else if str_eq key (codes "image_width")
    then on_rtsp (λ value c. record c { image_width = atoi value })
    else if str_eq key (codes "image_height")
    then on_rtsp (λ value c. record c { image_height = atoi value })
    else if str_eq key (codes "siyi_camera_ip")
    then on_siyi (λ value c. record c { ip = some value })
    else if str_eq key (codes "siyi_camera_port")
    then on_siyi (λ value c. record c { port = atoi value })
    else none

-- The structures are local variables that nothing sets before: what they hold is an argument, where a
-- pointer may stand for no text (`none`).
unfoldable pub load_siyi_configs : Option (List Event) → SiyiConfigs → Outcome SiyiConfigs
unfolding siyi_params
load_siyi_configs none before = exited
load_siyi_configs (some events) before = load siyi_params events before

-- `struct device_config`, where a text that was not given is NULL.
pub record DeviceConfig : Type 0 where
  pub yaml : Option (List ℕ)
  pub kind : Option (List ℕ)
  pub enabled : Bool

-- `devs` before it is loaded.
abbrev pub no_device_configs : List DeviceConfig
no_device_configs = replicate camera_num_max (record { yaml = none; kind = none; enabled = false })

pub data DeviceField : Type 0 where
  yaml_field kind_field enabled_field : DeviceField

abbrev pub device_suffix : DeviceField → String
device_suffix yaml_field = "_config"
device_suffix kind_field = "_type"
device_suffix enabled_field = "_enabled"

abbrev pub device_key : ℕ → DeviceField → List ℕ
device_key n field = codes "device" ++ (b'0' + n) ∷ codes (device_suffix field)

-- `READ_DEVICE_CONFIG` of one device.
abbrev pub device_field_of : ℕ → List ℕ → Option DeviceField
device_field_of n key =
    if str_eq key (device_key n yaml_field)
    then some yaml_field
    else if str_eq key (device_key n kind_field)
    then some kind_field
    else if str_eq key (device_key n enabled_field)
    then some enabled_field
    else none

abbrev pub first_device :
    Option DeviceField → ℕ → Option (ℕ × DeviceField) → Option (ℕ × DeviceField)
first_device none n rest = rest
first_device (some field) n rest = some (n, field)

-- The chain over the devices from `n` on.
abbrev pub find_device : ℕ → ℕ → List ℕ → Option (ℕ × DeviceField)
find_device zero n key = none
find_device (suc left) n key = first_device (device_field_of n key) n (find_device left (suc n) key)

abbrev pub set_device_field : DeviceField → List ℕ → DeviceConfig → Outcome DeviceConfig
set_device_field yaml_field value d = ok (record d { yaml = some value })
set_device_field kind_field value d = ok (record d { kind = some value })
set_device_field enabled_field value d = as_bool value >>= λ b. ok (record d { enabled = b })

-- `devs[dev_num]`; an index outside the array is a fault.
abbrev pub set_device :
    ℕ → DeviceField → List ℕ → Option DeviceConfig → List DeviceConfig → Outcome (List DeviceConfig)
set_device n field value none devs = fault
set_device n field value (some d) devs = set_device_field field value d >>= λ d'. ok (set devs n d')

abbrev pub device_setter :
    Option (ℕ × DeviceField) → Option (List ℕ → List DeviceConfig → Outcome (List DeviceConfig))
device_setter none = none
device_setter (some (n, field)) =
    some (λ value devs. set_device n field value (get_elem? devs n) devs)

unfoldable pub device_params : Params (List DeviceConfig)
device_params key = device_setter (find_device camera_num_max 0 key)

-- What the system gives while a camera is set up: the files by their paths, the memory of the two
-- structures, and the calls of `camera_open` and of `gimbal_open`. The two requests behind them take
-- nothing from it.
pub record Startup : Type 0 where
  pub files : List ℕ → Option (List Event)
  pub before : SiyiConfigs
  pub camera : World
  pub gimbal : World

-- `yaml` is `devs[id].yaml`; NULL, or a path that does not fit the buffer, is a fault.
unfoldable pub siyi_camera_init : Startup → ℤ → Option (List ℕ) → Cameras → Outcome Cameras
siyi_camera_init s id yaml cameras = do
  name ← or_fault yaml
  path ← or_fault (sprintf path_max (codes "configs/" ++ name))
  configs ← load_siyi_configs (s.files path) s.before
  registered ← register_siyi_camera id cameras
  opened ← camera_open s.camera id configs.rtsp_config registered
  connected ← gimbal_open s.gimbal id configs.siyi_cam_config opened
  zoomed ← camera_zoom s.gimbal id 1 0 connected
  gimbal_centering s.gimbal id zoomed

-- The chain of `strcmp` over the type, where NULL is a fault.
abbrev pub init_kind : Startup → ℕ → Option (List ℕ) → DeviceConfig → Cameras → Outcome Cameras
init_kind s id none d cameras = fault
init_kind s id (some kind) d cameras =
    if str_eq (codes "siyi") kind
    then siyi_camera_init s (pos id) d.yaml cameras
    else if str_eq (codes "none") kind
    then ok cameras
    else exited

unfoldable pub init_device : Startup → ℕ → DeviceConfig → Cameras → Outcome Cameras
init_device s id d cameras = if d.enabled then init_kind s id d.kind d cameras else ok cameras

-- The loop over `devs` from `id` on.
unfoldable pub init_devices : (ℕ → Startup) → ℕ → List DeviceConfig → Cameras → Outcome Cameras
init_devices s id [] cameras = ok cameras
init_devices s id (d ∷ devs) cameras =
    init_device (s id) id d cameras >>= init_devices s (suc id) devs

pub load_devices_configs : (ℕ → Startup) → Option (List Event) → Cameras → Outcome Cameras
load_devices_configs s none cameras = exited
load_devices_configs s (some events) cameras = do
  devs ← load device_params events no_device_configs
  init_devices s 0 devs cameras
