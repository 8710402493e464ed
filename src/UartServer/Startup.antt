-- ===== src/UartServer/Startup.antt =====
-- `run_uart_server` of src/uart_server.c up to its wait for the flight controller. Results of the
-- system calls are arguments.
pub mod Starts
pub mod Tests
use uav_mission_server.Prelude.{
  ℕ, Bool, true, false, not, List, [], ◌∷◌, Option, none, some, if◌then◌else◌,
}
use uav_mission_server.Prelude.Int.{pos}
use uav_mission_server.Serial.{
  Termios, Calls, Opening, invalid, closed_again, opened, SerialConfig, serial_open,
}
use uav_mission_server.Config.SerialPort.{PortConfig}
use uav_mission_server.UartServer.Port.{server_port}

-- The descriptor of `socket`, whether `bind` and `listen` succeed, the calls of `serial_open`, and the
-- two ends of the pipe.
pub record StartCalls : Type 0 where
  pub socket : Option ℕ
  pub bound : Bool
  pub listening : Bool
  pub port_calls : Calls
  pub pipe : Option (ℕ × ℕ)

-- The descriptors of `g_waiters`; a client is not polled yet.
pub record Waiters : Type 0 where
  pub close : ℕ
  pub serial : ℕ
  pub server : ℕ
  pub client : Option ℕ
  pub user_cmd : ℕ

-- A server that is about to wait: what it polls, the end of the pipe for the signal handler, its port,
-- and the settings of the serial port.
pub record Started : Type 0 where
  pub g_waiters : Waiters
  pub g_close : ℕ
  pub port : ℕ
  pub settings : Termios

-- The process ends with a failure, with the descriptors that are open then; or it goes on.
pub data Starting : Type 0 where
  refused : List ℕ → Starting
  started : Started → Starting

module _ (calls : StartCalls) (cmd_fifo_r : ℕ) where
  abbrev pub with_pipe : Option (ℕ × ℕ) → ℕ → ℕ → ℕ → Termios → Starting
  with_pipe none port server serial tio = refused (serial ∷ [])
  with_pipe (some (reader, writer)) port server serial tio = started (record {
    g_waiters = record {
      close = reader;
      serial = serial;
      server = server;
      client = none;
      user_cmd = cmd_fifo_r;
    };
    g_close = writer;
    port = port;
    settings = tio;
  })

  abbrev pub with_serial : Opening → ℕ → ℕ → Starting
  with_serial invalid port server = refused []
  with_serial (closed_again fd) port server = refused []
  with_serial (opened serial tio) port server = with_pipe calls.pipe port server serial tio

  -- Whether `bind` and `listen` succeeded. Behind `terminate` the socket is closed.
  abbrev pub with_results : Bool → Bool → ℕ → ℕ → PortConfig → Starting
  with_results bound listening port server cfg =
      if not bound
      then refused []
      else if not listening
      then refused []
      else with_serial (serial_open calls.port_calls cfg.path cfg.config (pos 1000)) port server

  abbrev pub with_socket : Option ℕ → ℕ → PortConfig → Starting
  with_socket none port cfg = refused []
  with_socket (some server) port cfg = with_results calls.bound calls.listening port server cfg

  abbrev pub with_port : Option ℕ → PortConfig → Starting
  with_port none cfg = refused []
  with_port (some port) cfg = with_socket calls.socket port cfg

  unfoldable pub start_server : Option (List ℕ) → PortConfig → Starting
  start_server net_port cfg = with_port (server_port net_port) cfg
