-- ===== src/Main/Tests.antt =====
-- A server and a command at known inputs.
use uav_mission_server.Prelude.{
  ℕ, ◌+◌, ◌≤◌, ◌≡◌, refl, sym, ◌∙◌, arith, true, List, [], ◌∷◌, none, some, codes, length,
}
use mathlib.Core.Path.{subst}
use uav_mission_server.Prelude.Int.{pos}
use uav_mission_server.Prelude.Libc.{show_int}
use uav_mission_server.Prelude.Outcomes.{ok, ok_injective}
use uav_mission_server.RtspStream.{path_max}
use uav_mission_server.Config.Yaml.{pairs, others, stream_end, load}
use uav_mission_server.Config.Rc.{no_channels, rc_params, load_rc_configs}
use uav_mission_server.Config.Cameras.{SiyiConfigs, DeviceConfig}
use uav_mission_server.Config.Cameras.Tests as CameraTests
use uav_mission_server.Config.Tests as PortTests
use uav_mission_server.System.{create_pidfile}
use uav_mission_server.MavlinkReceiver.{Fcu}
use uav_mission_server.MavlinkReceiver.Rc.{Sticks, at_rest}
use uav_mission_server.MavlinkReceiver.Tests.{world, whole, numbers}
use uav_mission_server.MavlinkReceiver.Messages.{read_mavlink_msg}
use uav_mission_server.MavlinkReceiver.Messages.Tests.{toy, time, fcu, serving}
use uav_mission_server.MavlinkReceiver.Messages.Radio.{Serving}
use uav_mission_server.Main.{Machine, Service, serves, commander, run_server, load_and_run, main}
use uav_mission_server.MavlinkReceiver.Messages.Connection.{known_of}
use uav_mission_server.UartServer.Loop.Tests as LoopTests
use uav_mission_server.Main.Received.{stamp, handle_log, serve-read_mavlink_msg}
use uav_mission_server.Main.Options.{main-meant}
use uav_mission_server.Main.Serves.{fcu_of, FirstSiyi, load_and_run-run_threads}
use uav_mission_server.Main.Threads.{Activity, bytes, stream, Running, run_threads}
use uav_mission_server.RtspStream.Events.{comes_up, muxed, new_sample}
use uav_mission_server.MavlinkReceiver.Messages.{Parser}
use uav_mission_server.MavlinkReceiver.Tests.{channels}
use uav_mission_server.MavlinkReceiver.Messages.Tests.{bytes as buf_of}

abbrev machine : Machine
machine = record {
  serial_file = some (others 3 (pairs PortTests.file (others 2 (stream_end ∷ []))));
  devices_file = some CameraTests.devices_file;
  rc_file = some (stream_end ∷ []);
  startup = CameraTests.startup;
  pid_opened = true;
  pid = pos 4711;
  pid_file = none;
  fifo_opened = true;
  unset = [];
}

abbrev service : Service
service = record {
  net_port = none;
  port_config = PortTests.expected;
  cameras = CameraTests.started.0;
  channels = no_channels;
  pid_file = some (codes "4711");
}

loads_rc : load_rc_configs (some (stream_end ∷ [])) ≡ ok no_channels
unfolding load_rc_configs load rc_params
loads_rc = refl

-- A server with one camera.
server : load_and_run machine none ≡ ok (serves service)
unfolding load_and_run run_server create_pidfile show_int
server = rw (PortTests.loads, CameraTests.started.1, loads_rc) refl

main-meant_example :
    main machine
      ((b'p', some (codes "9000")) ∷ (b't', some (codes "3")) ∷ (b't', some (codes "4")) ∷ [])
    ≡ commander machine (some (codes "4"))
main-meant_example =
    main-meant machine
      ((b'p', some (codes "9000")) ∷ (b't', some (codes "3")) ∷ (b't', some (codes "4")) ∷ [])

abbrev device : DeviceConfig
device = record { yaml = some (codes "a.yaml"); kind = some (codes "siyi"); enabled = true }

abbrev rest : List DeviceConfig
rest =
    CameraTests.missing
    ∷ CameraTests.missing
    ∷ CameraTests.missing
    ∷ CameraTests.missing
    ∷ record { yaml = none; kind = some (codes "none"); enabled = true }
    ∷ []

first : FirstSiyi machine device
first = record {
  enabled = refl;
  kind = refl;
  room = λ configs loads'.
      room configs (ok_injective (sym CameraTests.loads_expected ∙ loads'.loaded));
}
  where
    room :
        (configs : SiyiConfigs)
        → CameraTests.expected ≡ configs
        → (path : List ℕ) × (configs.rtsp_config.save_path ≡ some path)
          × (length path + 20 ≤ path_max)
    room configs e =
        subst
          (λ c.
            (path : List ℕ) × (c.rtsp_config.save_path ≡ some path) × (length path + 20 ≤ path_max))
          e (codes "/home", refl, omega arith)

-- A message whose number is its byte, with the command to start a video.
abbrev videos : Parser
videos = record {
  State = ℕ;
  mavlink_parse_char = λ b p. (
    b,
    some (record { msgid = b; sysid = 9; compid = 1; rc_channels = channels; command = 2500 }),
  );
}

-- The pipeline comes up, a video is started, and samples come between messages of the radio.
abbrev activities : List Activity
activities =
    bytes (buf_of (148 ∷ []))
    ∷ stream comes_up
    ∷ bytes (buf_of (65 ∷ 76 ∷ []))
    ∷ stream (new_sample (some (1 ∷ [])) world.now true)
    ∷ stream (muxed true)
    ∷ bytes (buf_of (65 ∷ []))
    ∷ []

load_and_run-run_threads_example :
    (r : Running numbers whole no_channels videos) × (run_threads numbers whole no_channels videos
        activities
        (0, (at_rest whole, fcu_of service))
      ≡ ok r)
    × Serving whole r.1
load_and_run-run_threads_example =
    load_and_run-run_threads machine none service CameraTests.devices_file device rest server refl
      CameraTests.reads_configs first numbers whole videos 0 activities
      ((time, tt), (tt, ((time, (time, tt)), ((time, refl), (tt, ((time, tt), tt))))))

serve-read_mavlink_msg_example :
    (handle_log numbers whole no_channels toy
        (λ n. world)
        LoopTests.heard_runs.0.log
        (0, (at_rest whole, fcu))
      ≡ read_mavlink_msg numbers whole no_channels toy
          (stamp (λ n. world) 0 (4 ∷ 65 ∷ 148 ∷ 76 ∷ 4 ∷ []))
          (0, (at_rest whole, fcu)))
    × (p' : ℕ) × (both : Sticks whole × Fcu) × (handle_log numbers whole no_channels toy
          (λ n. world)
          LoopTests.heard_runs.0.log
          (0, (at_rest whole, fcu))
        ≡ ok (p', both))
    × Serving whole both
    × (known_of both.1 ≡ (true, 9))
unfolding stamp
serve-read_mavlink_msg_example =
    serve-read_mavlink_msg numbers whole no_channels toy (λ n. world) LoopTests.heard_session
      LoopTests.heard_runs.0 0 (at_rest whole) fcu LoopTests.heard_runs.1 refl (λ n. time)
      (serving whole)
