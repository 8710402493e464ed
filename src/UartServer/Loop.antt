-- ===== src/UartServer/Loop.antt =====
-- src/uart_server.c: the main loop of `run_uart_server` and the shutdown behind it.
pub mod Runs
pub mod Invariant
pub mod Writers
pub mod Heard
pub mod Writes
pub mod Ids
pub mod ShutDown
pub mod Tests
use uav_mission_server.Prelude.{
  ℕ, zero, suc, Bool, true, false, not, ◌&&◌, ◌||◌, List, [], ◌∷◌, Option, none, some, get_elem?,
  length, if◌then◌else◌,
}
use uav_mission_server.Prelude.Int.{ℤ}
use uav_mission_server.UartServer.State.{
  ClientNode, Revents, Events, no_events, Effect, tune, Server,
}
use uav_mission_server.UartServer.Clients.{
  Accepted, id_eq, accept_client, terminate_client, send_data_to_clients, handle_commanding_client,
  log_effect,
}
use uav_mission_server.UartServer.Command.{read_user_cmd}

-- What the system calls of one round give, as far as they are made: whether `poll` failed with
-- another error than EINTR, the events, the results of `recv`, of `malloc` and `accept`, of
-- `serial_read`, of the calls of `send`, and of `read` on the FIFO with the memory it reads into.
pub record Inputs : Type 0 where
  pub poll_failed : Bool
  pub events : Events
  pub recv : Option (List ℕ)
  pub allocated : Bool
  pub accepted : Accepted
  pub serial_read : Option (List ℕ)
  pub send : List (Option ℕ)
  pub user_cmd : List ℕ
  pub fifo_read : Option (List ℕ)

-- A round goes on to the next, leaves the loop with an exit status of success or failure, or does not
-- come to its end: `send` is called past the results given, or memory outside `user_cmd` is written.
pub data Round : Type 0 where
  next : Server → Round
  leave : Bool → Server → Round
  lost : Round

infixl 5 ◌>>=◌
abbrev pub ◌>>=◌ : Option Server → (Server → Round) → Round
none >>= k = lost
some s >>= k = k s

abbrev pub head_client : Server → Option ClientNode
head_client s = get_elem? s.g_clients 0

abbrev pub clear_client : Server → Server
clear_client s = record s { revents = record s.revents { client = no_events } }

abbrev pub clear_server : Server → Server
clear_server s = record s { revents = record s.revents { server = no_events } }

abbrev pub clear_serial : Server → Server
clear_serial s = record s { revents = record s.revents { serial = no_events } }

abbrev pub clear_user_cmd : Server → Server
clear_user_cmd s = record s { revents = record s.revents { user_cmd = no_events } }

pub client_event : Inputs → Server → Server
client_event i s =
    if s.revents.client.pollhup || s.revents.client.pollerr
    then (terminate_client (head_client s) 0 s).0
    else if s.revents.client.pollin
    then clear_client (handle_commanding_client i.recv s)
    else s

pub server_event : Inputs → Server → Server
server_event i s =
    if s.revents.server.pollin then clear_server (accept_client i.allocated i.accepted s).0 else s

abbrev pub cleared : (Server → Server) → Option Server → Option Server
cleared f none = none
cleared f (some s) = some (f s)

pub serial_event : Inputs → Server → Option Server
serial_event i s =
    if s.revents.serial.pollin
    then cleared clear_serial (send_data_to_clients i.serial_read i.send s)
    else some s

-- `received` and the log after `read_user_cmd`.
abbrev pub after_command : Option (ℤ × Option ℤ) → Server → Option Server
after_command none s = none
after_command (some (received, none)) s = some (record s { received = received })
after_command (some (received, some n)) s =
    some (record s { received = received; log = tune n ∷ s.log })

pub user_cmd_event : Inputs → Server → Option Server
user_cmd_event i s =
    if s.revents.user_cmd.pollin
    then cleared clear_user_cmd (after_command (read_user_cmd i.user_cmd i.fifo_read s.received) s)
    else some s

-- `Check if we need to listen for a new commanding client`
abbrev pub command_by : Option ClientNode → Server → Server
command_by none s = s
command_by (some c) s =
    if id_eq s.g_commanding_client (some c.id)
    then s
    else clear_client (record s { client_fd = some c.client; g_commanding_client = some c.id })

pub take_command : Server → Server
take_command s = command_by (head_client s) s

abbrev pub ready : Revents → Bool
ready r = r.pollin || r.pollhup || r.pollerr

-- The body of the loop.
pub round : Inputs → Server → Round
round i s =
    let polled = record s { revents = i.events } in
    if i.poll_failed then leave false s else if ready i.events.close then leave true polled else do
      served ← serial_event i (server_event i (client_event i polled))
      commanded ← user_cmd_event i served
      next (take_command commanded)

-- `while (g_clients) terminate_client(g_clients, &g_clients);` The first argument bounds the rounds.
pub shut_down : ℕ → Server → Server
shut_down zero s = s
shut_down (suc rounds) s = elim (head_client s) [
  | none ↦ s
  | some c ↦ shut_down rounds (terminate_client (some c) 0 s).0
]

-- The loop over the inputs of its rounds; past them it is still running.
pub serve : List Inputs → Server → Round
serve [] s = next s
serve (i ∷ is) s = elim (round i s) [
  | next s' ↦ serve is s'
  | leave status s' ↦ leave status (shut_down (length s'.g_clients) s')
  | lost ↦ lost
]
