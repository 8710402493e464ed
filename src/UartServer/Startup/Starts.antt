-- ===== src/UartServer/Startup/Starts.antt =====
-- When the server starts.
use mathlib.Core.Path.{subst}
use uav_mission_server.Prelude.{
  ℕ, ◌≤◌, ◌≡◌, refl, sym, ap, ◌∙◌, ◌↔◌, ◌⊎◌, inl, inr, arith, Bool, true, false, List, [], ◌∷◌,
  Option, none, some,
}
use uav_mission_server.Prelude.Int.{pos}
use uav_mission_server.Serial.{Termios, Opening, invalid, closed_again, opened, serial_open}
use uav_mission_server.Config.SerialPort.{PortConfig}
use uav_mission_server.UartServer.Port.{server_port, check_port}
use uav_mission_server.UartServer.Startup.{
  StartCalls, Started, Starting, refused, started, with_pipe, with_serial, with_results,
  with_socket, with_port, start_server,
}

abbrev opening : StartCalls → PortConfig → Opening
opening calls cfg = serial_open calls.port_calls cfg.path cfg.config (pos 1000)

-- Every step of the start succeeds.
pub record Succeeds (calls : StartCalls) (net_port : Option (List ℕ)) (cfg : PortConfig)
    (s : Started) : Type 0 where
  pub port : server_port net_port ≡ some s.port
  pub range : (1 ≤ s.port) × (s.port ≤ 65535)
  pub socket : calls.socket ≡ some s.g_waiters.server
  pub bound : calls.bound ≡ true
  pub listening : calls.listening ≡ true
  pub serial :
      serial_open calls.port_calls cfg.path cfg.config (pos 1000)
      ≡ opened s.g_waiters.serial s.settings
  pub pipe : calls.pipe ≡ some (s.g_waiters.close, s.g_close)
  pub client : s.g_waiters.client ≡ none

-- The start fails: only a failure of `pipe` leaves a descriptor open, that of the serial port.
abbrev pub Leaves : StartCalls → PortConfig → List ℕ → Type 0
Leaves calls cfg left =
    (left ≡ [])
    ⊎ ((serial : ℕ) × (tio : Termios) × (left ≡ serial ∷ [])
        × (serial_open calls.port_calls cfg.path cfg.config (pos 1000) ≡ opened serial tio)
        × (calls.pipe ≡ none))

server_port_range :
    (net_port : Option (List ℕ)) (p : ℕ) → server_port net_port ≡ some p → (1 ≤ p) × (p ≤ 65535)
unfolding server_port
server_port_range none p e = (ground arith, ground arith)
server_port_range (some text) p e = check_range _ e
  where
    check_range : (r : Bool × ℕ) → check_port r ≡ some p → (1 ≤ p) × (p ≤ 65535)
    check_range (parsed, port) h = unfold check_port in (ground arith, ground arith)

module _ (calls : StartCalls) (fifo : ℕ) (net_port : Option (List ℕ)) (cfg : PortConfig) where
  -- How a start may end.
  abbrev pub Ends : Starting → Type 0
  Ends (refused left) = Leaves calls cfg left
  Ends (started s) = Succeeds calls net_port cfg s × (s.g_waiters.user_cmd ≡ fifo)

  with_pipe-Ends :
      (port server serial : ℕ) (tio : Termios) (o : Option (ℕ × ℕ))
      → calls.pipe ≡ o
      → server_port net_port ≡ some port
      → calls.socket ≡ some server
      → calls.bound ≡ true
      → calls.listening ≡ true
      → opening calls cfg ≡ opened serial tio
      → Ends (with_pipe calls fifo o port server serial tio)
  with_pipe-Ends port server serial tio none e p so b l se = inr (serial, tio, refl, se, e)
  with_pipe-Ends port server serial tio (some (reader, writer)) e p so b l se = (
    record {
      port = p;
      range = server_port_range net_port port p;
      socket = so;
      bound = b;
      listening = l;
      serial = se;
      pipe = e;
      client = refl;
    },
    refl,
  )

  with_serial-Ends :
      (port server : ℕ) (o : Opening)
      → opening calls cfg ≡ o
      → server_port net_port ≡ some port
      → calls.socket ≡ some server
      → calls.bound ≡ true
      → calls.listening ≡ true
      → Ends (with_serial calls fifo o port server)
  with_serial-Ends port server invalid e p so b l = inl refl
  with_serial-Ends port server (closed_again fd) e p so b l = inl refl
  with_serial-Ends port server (opened serial tio) e p so b l =
      with_pipe-Ends port server serial tio calls.pipe refl p so b l e

  with_results-Ends :
      (port server : ℕ) (b l : Bool)
      → calls.bound ≡ b
      → calls.listening ≡ l
      → server_port net_port ≡ some port
      → calls.socket ≡ some server
      → Ends (with_results calls fifo b l port server cfg)
  with_results-Ends port server false l e e' p so = inl refl
  with_results-Ends port server true false e e' p so = inl refl
  with_results-Ends port server true true e e' p so =
      with_serial-Ends port server (opening calls cfg) refl p so e e'

  with_socket-Ends :
      (port : ℕ) (o : Option ℕ)
      → calls.socket ≡ o
      → server_port net_port ≡ some port
      → Ends (with_socket calls fifo o port cfg)
  with_socket-Ends port none e p = inl refl
  with_socket-Ends port (some server) e p =
      with_results-Ends port server calls.bound calls.listening refl refl p e

  with_port-Ends : (o : Option ℕ) → server_port net_port ≡ o → Ends (with_port calls fifo o cfg)
  with_port-Ends none e = inl refl
  with_port-Ends (some port) e = with_socket-Ends port calls.socket refl e

  starts :
      (s : Started)
      → Succeeds calls net_port cfg s
      → s.g_waiters.user_cmd ≡ fifo
      → start_server calls fifo net_port cfg ≡ started s
  unfolding start_server
  starts s h e =
      ap (λ o. with_port calls fifo o cfg) h.port
      ∙ ap (λ o. with_socket calls fifo o s.port cfg) h.socket
      ∙ ap (λ b. with_results calls fifo b calls.listening s.port s.g_waiters.server cfg) h.bound
      ∙ ap (λ b. with_results calls fifo true b s.port s.g_waiters.server cfg) h.listening
      ∙ ap (λ o. with_serial calls fifo o s.port s.g_waiters.server) h.serial
      ∙ ap (λ o. with_pipe calls fifo o s.port s.g_waiters.server s.g_waiters.serial s.settings)
          h.pipe
      ∙ ap started whole
    where
      whole : record s { g_waiters = record s.g_waiters { client = none; user_cmd = fifo } } ≡ s
      whole = λ i. record s {
        g_waiters = record s.g_waiters { client = sym h.client i; user_cmd = sym e i };
      }

  same_start :
      (s : Started)
      → (start : Starting) → Ends start
      → start ≡ started s
      → Succeeds calls net_port cfg s × (s.g_waiters.user_cmd ≡ fifo)
  same_start s start h e = subst Ends e h

  -- However the calls of the system come out, the start ends in one of two ways. The server goes on
  -- exactly where every step succeeds: the port is one from 1 to 65535, the socket is made, bound and
  -- listens, the serial port is open with the settings for its configuration, and there is a pipe for
  -- the shutdown; the pipe, the serial port, the socket and the FIFO are polled, and no client yet. Or the process ends
  -- with a failure, and then of the descriptors that the start opened none is left open but that of
  -- the serial port where `pipe` failed.
  pub start_server-Ends :
      (s : Started)
      → Ends (start_server calls fifo net_port cfg)
        × ((start_server calls fifo net_port cfg ≡ started s)
            ↔ (Succeeds calls net_port cfg s × (s.g_waiters.user_cmd ≡ fifo)))
  unfolding start_server
  start_server-Ends s = (
    with_port-Ends (server_port net_port) refl,
    (same_start s _ (with_port-Ends (server_port net_port) refl), λ (h, e). starts s h e),
  )
