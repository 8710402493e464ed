-- ===== src/Config/Cameras/Tests.antt =====
-- A server with one camera.
use uav_mission_server.Prelude.{
  ℕ, ◌≡◌, ◌↔◌, refl, arith, true, false, inl, inr, List, [], ◌∷◌, none, some, length, codes,
  get_elem?,
}
use uav_mission_server.Prelude.Int.{pos}
use uav_mission_server.Prelude.Libc.{str_eq, atoi}
use uav_mission_server.Prelude.Outcomes.{ok}
use uav_mission_server.Device.{camera_num_max, no_devices}
use uav_mission_server.SiyiCamera.Operations.{World, Cameras}
use uav_mission_server.Config.Yaml.{Event, pairs, others, stream_end, load}
use uav_mission_server.Config.Cameras.{
  SiyiConfigs, DeviceConfig, Startup, no_device_configs, siyi_params, device_params,
  load_siyi_configs, siyi_camera_init, load_devices_configs,
}
use uav_mission_server.Config.Cameras.Files.{Set, load_siyi_configs-Set}
use uav_mission_server.Config.Cameras.Ready.{holding, ready_device, Loads, Succeeds}
use uav_mission_server.Config.Cameras.Started.{siyi_camera_init_iff}
use uav_mission_server.Config.Cameras.Rounds.{Configured, Each}
use uav_mission_server.Config.Cameras.Loaded.{load_devices_configs-Configured}
use uav_mission_server.Config.Cameras.Returns.{Startable, load_devices_configs_iff}

abbrev camera_keys : List (List ℕ × List ℕ)
camera_keys =
    (codes "save_path", codes "/home")
    ∷ (codes "codec", codes "h265")
    ∷ (codes "image_width", codes "1280")
    ∷ (codes "siyi_camera_ip", codes "192.168.50.25")
    ∷ (codes "siyi_camera_port", codes "37260")
    ∷ []

abbrev pub camera_file : List Event
camera_file = others 2 (pairs camera_keys (others 0 (stream_end ∷ [])))

abbrev pub memory : SiyiConfigs
memory = record {
  rtsp_config = record {
    save_path = none;
    codec = none;
    board_name = none;
    rtsp_stream_url = none;
    video_format = none;
    image_width = pos 7;
    image_height = pos 7;
  };
  siyi_cam_config = record { ip = none; port = pos 7 };
}

abbrev pub expected : SiyiConfigs
expected = record {
  rtsp_config = record {
    save_path = some (codes "/home");
    codec = some (codes "h265");
    board_name = none;
    rtsp_stream_url = none;
    video_format = none;
    image_width = pos 1280;
    image_height = pos 7;
  };
  siyi_cam_config = record { ip = some (codes "192.168.50.25"); port = pos 37260 };
}

pub loads_expected : load_siyi_configs (some camera_file) memory ≡ ok expected
unfolding load_siyi_configs load siyi_params str_eq atoi
loads_expected = refl

load_siyi_configs-Set_example : Set camera_keys memory expected
load_siyi_configs-Set_example = load_siyi_configs-Set 2 0 camera_keys memory expected loads_expected

abbrev world : World
world = record {
  now = record { tm_year = 124; tm_mon = 6; tm_mday = 3; tm_hour = 12; tm_min = 5; tm_sec = 9 };
  allocated = true;
  socket = some 9;
  connected = λ ip port. true;
}

abbrev pub startup : ℕ → Startup
startup n = record {
  files = λ path. some camera_file;
  before = memory;
  camera = world;
  gimbal = world;
}

abbrev pub devices_file : List Event
devices_file =
    pairs
      ((codes "device0_config", codes "a.yaml")
        ∷ (codes "device0_type", codes "siyi")
        ∷ (codes "device0_enabled", codes "true")
        ∷ (codes "device5_type", codes "none")
        ∷ (codes "device5_enabled", codes "true")
        ∷ [])
      (stream_end ∷ [])

abbrev pub missing : DeviceConfig
missing = record { yaml = none; kind = none; enabled = false }

abbrev pub configs : List DeviceConfig
configs =
    record { yaml = some (codes "a.yaml"); kind = some (codes "siyi"); enabled = true }
    ∷ missing
    ∷ missing
    ∷ missing
    ∷ missing
    ∷ record { yaml = none; kind = some (codes "none"); enabled = true }
    ∷ []

pub reads_configs : load device_params devices_file no_device_configs ≡ ok configs
unfolding load device_params str_eq
reads_configs = refl

loads : Loads (startup 0) (some (codes "a.yaml")) expected
loads = record {
  name = codes "a.yaml";
  path = codes "configs/a.yaml";
  given = refl;
  fits = refl;
  loaded = loads_expected;
}

succeeds : Succeeds (startup 0) expected 9
succeeds = record {
  camera_allocated = refl;
  gimbal_allocated = refl;
  socket = refl;
  ip = codes "192.168.50.25";
  address = refl;
  connected = refl;
}

siyi_camera_init_iff_example :
    (siyi_camera_init (startup 0) (pos 2) (some (codes "a.yaml")) no_devices
      ≡ ok (holding no_devices 2 (ready_device 2 expected 9)))
    ↔ ((c : SiyiConfigs) × (fd : ℕ) × Loads (startup 0) (some (codes "a.yaml")) c
        × Succeeds (startup 0) c fd
        × (holding no_devices 2 (ready_device 2 expected 9)
            ≡ holding no_devices 2 (ready_device 2 c fd)))
siyi_camera_init_iff_example =
    siyi_camera_init_iff no_devices 2 refl (omega arith) (startup 0) (some (codes "a.yaml"))
      (holding no_devices 2 (ready_device 2 expected 9))

sets_up :
    siyi_camera_init (startup 0) (pos 2) (some (codes "a.yaml")) no_devices
    ≡ ok (holding no_devices 2 (ready_device 2 expected 9))
sets_up =
    (siyi_camera_init_iff no_devices 2 refl (omega arith) (startup 0) (some (codes "a.yaml"))
        (holding no_devices 2 (ready_device 2 expected 9))).1
      (expected, 9, loads, succeeds, refl)

load_devices_configs_iff_example :
    ((cameras' : Cameras) × (load_devices_configs startup (some devices_file) no_devices
        ≡ ok cameras'))
    ↔ ((events : List Event) × (devs : List DeviceConfig) × (some devices_file ≡ some events)
        × (load device_params events no_device_configs ≡ ok devs)
        × Each (λ n d. Startable (startup n) d) 0 devs)
load_devices_configs_iff_example =
    load_devices_configs_iff startup (some devices_file) no_devices refl

pub started :
    (cameras' : Cameras) × (load_devices_configs startup (some devices_file) no_devices
      ≡ ok cameras')
started = (load_devices_configs_iff startup (some devices_file) no_devices refl).1 (
  devices_file,
  configs,
  refl,
  reads_configs,
  (
    inr (expected, 9, (refl, refl, loads, succeeds)),
    (
      inl (inl refl),
      (inl (inl refl), (inl (inl refl), (inl (inl refl), (inl (inr (refl, refl)), tt)))),
    ),
  ),
)

load_devices_configs-Configured_example :
    (events : List Event) × (devs : List DeviceConfig) × (some devices_file ≡ some events)
    × (load device_params events no_device_configs ≡ ok devs)
    × (length devs ≡ camera_num_max)
    × (length started.0 ≡ camera_num_max)
    × Each
        (λ n d. Configured (startup n) n d (get_elem? no_devices n) (get_elem? started.0 n))
        0
        devs
load_devices_configs-Configured_example =
    load_devices_configs-Configured startup (some devices_file) no_devices started.0 refl started.1
