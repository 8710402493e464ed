-- ===== src/Main.antt =====
-- src/main.c: the command line, and the start of the server or of a command to it. What the calls of
-- `getopt_long` give is an argument, as are the files and the results of the system calls.
pub mod Options
pub mod Threads
pub mod Serves
pub mod Received
pub mod Tests
use uav_mission_server.Prelude.{
  ℕ, Bool, true, false, List, [], ◌∷◌, Option, none, some, ◌==◌, if◌then◌else◌,
}
use uav_mission_server.Prelude.Int.{ℤ}
use uav_mission_server.Prelude.Outcomes.{Outcome, ok, exited, fault, ◌>>=◌}
use uav_mission_server.Config.Yaml.{Event}
use uav_mission_server.Config.SerialPort.{PortConfig, load_serial_configs}
use uav_mission_server.Config.Rc.{ConfigRc, load_rc_configs}
use uav_mission_server.Config.Cameras.{Startup, load_devices_configs}
use uav_mission_server.Device.{no_devices}
use uav_mission_server.SiyiCamera.Operations.{Cameras}
use uav_mission_server.System.{File, create_pidfile}
use uav_mission_server.UartServer.Command.{run_commander}

pub record Args : Type 0 where
  pub commander_mode : Bool
  pub net_port : Option (List ℕ)
  pub cmd_arg : Option (List ℕ)

abbrev pub no_args : Args
no_args = record { commander_mode = false; net_port = none; cmd_arg = none }

-- What a call of `getopt_long` gives: the character and `optarg`.
abbrev pub Given : Type 0
Given = ℕ × Option (List ℕ)

abbrev pub set_option : Given → Args → Args
set_option (c, optarg) args =
    if c == b'p'
    then record args { net_port = optarg }
    else if c == b't'
    then record args { commander_mode = true; cmd_arg = optarg }
    else args

-- The loop over the options; `none` is the return behind the help.
unfoldable pub parse_options : List Given → Args → Option Args
parse_options [] args = some args
parse_options (given ∷ more) args =
    let rest = parse_options more (set_option given args) in if given.0 == b'h' then none else rest

-- The files by their paths in the source, the cameras' start, whether the file of the process and the
-- FIFO can be opened, the number of the process, and what is in the words of a command that are not
-- set.
pub record Machine : Type 0 where
  pub serial_file : Option (List Event)
  pub devices_file : Option (List Event)
  pub rc_file : Option (List Event)
  pub startup : ℕ → Startup
  pub pid_opened : Bool
  pub pid : ℤ
  pub pid_file : File
  pub fifo_opened : Bool
  pub unset : List ℕ

-- What the two threads of a server start with.
pub record Service : Type 0 where
  pub net_port : Option (List ℕ)
  pub port_config : PortConfig
  pub cameras : Cameras
  pub channels : List ConfigRc
  pub pid_file : File

-- The process has printed its help, has written a command to the FIFO, or serves.
pub data Action : Type 0 where
  helped : Action
  commanded : List ℕ → Action
  serves : Service → Action

module _ (m : Machine) where
  -- `atoi` of NULL is a fault.
  abbrev pub command : Option (List ℕ) → Outcome Action
  command none = fault
  command (some text) = ok (commanded (run_commander m.unset text))

  abbrev pub commander : Option (List ℕ) → Outcome Action
  commander cmd_arg = if m.fifo_opened then command cmd_arg else exited

  unfoldable pub run_server :
      Option (List ℕ) → PortConfig → Cameras → List ConfigRc → Outcome Action
  run_server net_port port_config cameras channels =
      create_pidfile m.pid_opened m.pid m.pid_file >>= λ pid_file.
      if m.fifo_opened
      then ok (
          serves (record {
            net_port = net_port;
            port_config = port_config;
            cameras = cameras;
            channels = channels;
            pid_file = pid_file;
          }))
      else exited

  unfoldable pub load_and_run : Option (List ℕ) → Outcome Action
  unfolding run_server
  load_and_run net_port = do
    port_config ← load_serial_configs m.serial_file
    cameras ← load_devices_configs m.startup m.devices_file no_devices
    channels ← load_rc_configs m.rc_file
    run_server net_port port_config cameras channels

  abbrev pub run_args : Option Args → Outcome Action
  run_args none = ok helped
  run_args (some args) =
      if args.commander_mode then commander args.cmd_arg else load_and_run args.net_port

  unfoldable pub main : List Given → Outcome Action
  unfolding parse_options load_and_run
  main options = run_args (parse_options options no_args)
