-- ===== src/UartServer/Startup/Tests.antt =====
-- A start with every call succeeding.
use uav_mission_server.Prelude.{◌≡◌, refl, ◌↔◌, true, none, some, codes}
use uav_mission_server.Prelude.Int.{pos}
use uav_mission_server.Serial.{
  Termios, e_parity_none, e_stop_bits_one, serial_open, settings, convert_baudrate,
}
use uav_mission_server.Config.SerialPort.{PortConfig}
use uav_mission_server.UartServer.Port.{server_port}
use uav_mission_server.UartServer.Startup.{StartCalls, Started, started, start_server}
use uav_mission_server.UartServer.Startup.Starts.{Succeeds, Ends, start_server-Ends}

abbrev calls : StartCalls
calls = record {
  socket = some 4;
  bound = true;
  listening = true;
  port_calls = record { descriptor = λ path flags. some 5; speed_set = true; attr_set = true };
  pipe = some (6, 7);
}

abbrev config : PortConfig
config = record {
  path = some (codes "/dev/ttyTHS0");
  config = record {
    baudrate = 57600;
    parity = e_parity_none;
    data_bits = pos 8;
    stop_bits = e_stop_bits_one;
  };
}

-- The server with what the calls give.
abbrev server : Termios → Started
server tio = record {
  g_waiters = record { close = 6; serial = 5; server = 4; client = none; user_cmd = 3 };
  g_close = 7;
  port = 8278;
  settings = tio;
}

starts_up : (tio : Termios) × (start_server calls 3 none config ≡ started (server tio))
unfolding start_server server_port serial_open settings convert_baudrate
starts_up = (_, refl)

start_server-Ends_example :
    Ends calls 3 none config (start_server calls 3 none config)
    × ((start_server calls 3 none config ≡ started (server starts_up.0)) ↔ (
        Succeeds calls none config (server starts_up.0)
        × ((server starts_up.0).g_waiters.user_cmd ≡ 3)))
start_server-Ends_example = start_server-Ends calls 3 none config (server starts_up.0)
