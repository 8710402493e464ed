-- ===== src/Main/Serves.antt =====
-- A server that has started handles every message.
use mathlib.Core.Path.{subst}
use uav_mission_server.Prelude.{
  ℕ, ◌+◌, ◌≤◌, ◌≡◌, refl, sym, ap, ◌∙◌, inl, inr, arith, Bool, true, false, List, [], ◌∷◌, Option,
  none, some, some_injective, length, get_elem?, codes, if◌then◌else◌,
}
use uav_mission_server.Prelude.Int.{pos}
use uav_mission_server.Prelude.Libc.{str_eq}
use uav_mission_server.Prelude.Outcomes.{ok, exited, >>=-eq-ok, ok_injective}
use uav_mission_server.RtspStream.{rtsp_open, path_max}
use uav_mission_server.Device.{no_devices}
use uav_mission_server.SiyiCamera.Operations.{Cameras}
use uav_mission_server.Config.Yaml.{Event, load}
use uav_mission_server.Config.SerialPort.{load_serial_configs}
use uav_mission_server.Config.Rc.{ConfigRc, no_channels, load_rc_configs}
use uav_mission_server.Config.Rc.Channels.{load-Whole}
use uav_mission_server.Config.Cameras.{
  SiyiConfigs, DeviceConfig, no_device_configs, device_params, load_devices_configs,
}
use uav_mission_server.Config.Cameras.Ready.{Loads, driven_entry, ready_device}
use uav_mission_server.Config.Cameras.Rounds.{Idle, Configured, Each}
use uav_mission_server.Config.Cameras.Loaded.{load_devices_configs-Configured}
use uav_mission_server.System.{create_pidfile}
use uav_mission_server.MavlinkPublisher.{Numbers}
use uav_mission_server.MavlinkReceiver.{Fcu}
use uav_mission_server.MavlinkReceiver.Rc.{Floats, at_rest}
use uav_mission_server.MavlinkReceiver.Messages.{Parser}
use uav_mission_server.MavlinkReceiver.Messages.Open.{Open}
use uav_mission_server.MavlinkReceiver.Messages.Radio.{Serving}
use uav_mission_server.Main.Threads.{Activity, Running, run_threads, AllFine, run_threads_returns}
use uav_mission_server.Main.{Machine, Service, serves, run_server, load_and_run}

-- The state of the handlers at the start.
abbrev pub fcu_of : Service → Fcu
fcu_of s = record {
  serial_is_ready = false;
  link = record { fcu_sysid = 0; video_status = false; outbox = [] };
  cameras = s.cameras;
}

-- The first device of a configuration is a SIYI camera, with a path for its files that leaves room for
-- their names.
pub record FirstSiyi (m : Machine) (d : DeviceConfig) : Type 0 where
  pub enabled : d.enabled ≡ true
  pub kind : d.kind ≡ some (codes "siyi")
  pub room :
      (configs : SiyiConfigs)
      → Loads (m.startup 0) d.yaml configs
      → (path : List ℕ) × (configs.rtsp_config.save_path ≡ some path)
        × (length path + 20 ≤ path_max)

FirstSiyi-busy : (m : Machine) (d : DeviceConfig) → FirstSiyi m d → Idle d → ⊥
unfolding str_eq
FirstSiyi-busy m d h (inl disabled) = differ (sym h.enabled ∙ disabled)
  where
    differ : true ≡ false → ⊥
    differ e = cc
FirstSiyi-busy m d h (inr (enabled, none')) =
    differ (ap (str_eq (codes "siyi")) (some_injective (sym h.kind ∙ none')))
  where
    differ : true ≡ false → ⊥
    differ e = cc

open_config :
    (configs : SiyiConfigs)
    → (rtsp_open (pos 0) configs.rtsp_config).rtsp_config ≡ configs.rtsp_config
unfolding rtsp_open
open_config configs = refl

Configured-Open :
    (m : Machine) (d : DeviceConfig) (before after' : Cameras)
    → FirstSiyi m d
    → Configured (m.startup 0) 0 d (get_elem? before 0) (get_elem? after' 0)
    → Open after'
Configured-Open m d before after' h (inl (idle, same)) = absurd (FirstSiyi-busy m d h idle)
Configured-Open m d before after' h (inr (configs, fd, siyi, is)) = record {
  entry = driven_entry (ready_device 0 configs fd);
  data' = rtsp_open (pos 0) configs.rtsp_config;
  siyi = _;
  driven = record { here = is; driver = refl };
  camera = refl;
  gimbal = refl;
  room =
      (let (path, set', fits) = h.room configs siyi.2 in
        (path, ap (λ c. c.save_path) (open_config configs) ∙ set', fits));
}

loaded_channels :
    (file : Option (List Event)) (channels : List ConfigRc)
    → load_rc_configs file ≡ ok channels
    → length channels ≡ 18
unfolding load_rc_configs
loaded_channels none channels e = cc
loaded_channels (some events) channels e = elim (load-Whole events no_channels refl) [
  | inl ends ↦ absurd (differ (sym ends ∙ e))
  | inr (found, loaded, size) ↦ ap length (ok_injective (sym e ∙ loaded)) ∙ size
]
  where
    differ : exited ≡ ok channels → ⊥
    differ q = cc

-- What the two threads are given.
serves_what :
    (m : Machine) (net_port : Option (List ℕ)) (s : Service)
    → load_and_run m net_port ≡ ok (serves s)
    → (load_devices_configs m.startup m.devices_file no_devices ≡ ok s.cameras)
      × (load_rc_configs m.rc_file ≡ ok s.channels)
unfolding load_and_run run_server
serves_what m net_port s e =
    let (port_config, first, e1) = >>=-eq-ok (load_serial_configs m.serial_file) _ (serves s) e in
    let (cameras, second, e2) =
      >>=-eq-ok (load_devices_configs m.startup m.devices_file no_devices) _ (serves s) e1 in
    let (channels, third, e3) = >>=-eq-ok (load_rc_configs m.rc_file) _ (serves s) e2 in
    let (pid_file, fourth, e4) =
      >>=-eq-ok (create_pidfile m.pid_opened m.pid m.pid_file) _ (serves s) e3 in
    let (same, same') = opened m.fifo_opened _ e4 in
    (second ∙ ap ok (ap (λ x. x.cameras) same), third ∙ ap ok (ap (λ x. x.channels) same))
  where
    opened :
        (b : Bool) (t : Service)
        → (if b then ok (serves t) else exited) ≡ ok (serves s)
        → (t ≡ s) × (b ≡ true)
    opened true t q = (cc, refl)
    opened false t q = cc

-- From the files to the messages: a server that has started with a SIYI camera as its first device,
-- whose file gives a path that leaves room for the names of files, handles whatever the flight
-- controller sends, interleaved with whatever events come from the pipeline of this camera: its coming
-- up, after which videos and images are saved, ends of streams, and samples. The bytes of every read are
-- handled to their end and so is every event, up to the year 9999 and if the files of images can be
-- opened: no handler ends the process, uses a bad pointer or writes out of bounds, and the camera stays
-- open. What `rtsp_saver` does before the pipeline is up is not part of it.
pub load_and_run-run_threads :
    (m : Machine) (net_port : Option (List ℕ)) (s : Service) (events : List Event)
    (d : DeviceConfig) (devs : List DeviceConfig)
    → load_and_run m net_port ≡ ok (serves s)
    → m.devices_file ≡ some events
    → load device_params events no_device_configs ≡ ok (d ∷ devs)
    → FirstSiyi m d
    → (mav : Numbers) (F : Floats) (P : Parser) (p : P.State) (acts : List Activity)
    → AllFine mav F s.channels P acts
    → (r : Running mav F s.channels P) × (run_threads mav F s.channels P acts
          (p, (at_rest F, fcu_of s))
        ≡ ok r)
      × Serving F r.1
load_and_run-run_threads m net_port s events d devs e given loaded first mav F P p acts fine =
    let (cameras_loaded, channels_loaded) = serves_what m net_port s e in
    let (events', devs', given', loaded', whole, size, each) =
      load_devices_configs-Configured m.startup m.devices_file no_devices s.cameras refl
        cameras_loaded in
    let same : devs' ≡ d ∷ devs = ok_injective (
      sym loaded'
      ∙ ap (λ l. load device_params l no_device_configs) (some_injective (sym given' ∙ given))
      ∙ loaded) in
    let first_each =
      subst
        (Each (λ n c. Configured (m.startup n) n c (get_elem? no_devices n) (get_elem? s.cameras n))
          0)
        same each in
    run_threads_returns mav F s.channels P (loaded_channels m.rc_file s.channels channels_loaded)
      acts p (at_rest F) (fcu_of s) fine
      ((omega arith, omega arith), Configured-Open m d no_devices s.cameras first first_each.0)
