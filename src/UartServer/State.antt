-- ===== src/UartServer/State.antt =====
-- src/uart_server.c: the connected clients and the global state of the server.
use uav_mission_server.Prelude.Int.{ℤ, pos}
use uav_mission_server.Prelude.{ℕ, Bool, false, List, [], Option, none}

-- `struct ClientNode`, without the link: the list of clients is a list.
pub record ClientNode : Type 0 where
  pub id : ℕ
  pub addr : ℕ
  pub port : ℕ
  pub client : ℕ

-- The bits of `revents` that the server reads.
pub record Revents : Type 0 where
  pub pollin : Bool
  pub pollhup : Bool
  pub pollerr : Bool

abbrev pub no_events : Revents
no_events = record { pollin = false; pollhup = false; pollerr = false }

-- The `revents` of the five entries of `g_waiters`.
pub record Events : Type 0 where
  pub close : Revents
  pub serial : Revents
  pub server : Revents
  pub client : Revents
  pub user_cmd : Revents

-- What the server does to the outside, newest first in a log: bytes sent to a socket, a socket shut
-- down and closed, bytes of a client handed to `serial_write`, bytes handed to `read_mavlink_msg`, a
-- tune asked for by `mavlink_send_play_tune`.
pub data Effect : Type 0 where
  sent : ℕ → List ℕ → Effect
  closed : ℕ → Effect
  wrote : ℕ → List ℕ → Effect
  parsed : List ℕ → Effect
  tune : ℤ → Effect

-- The global variables and the function-local static ones. The id -1, of no client, is `none`, and so
-- is a descriptor -1, which `poll` passes over; `client_fd` is the descriptor of the waiter for
-- commands, the only one that changes.
pub record Server : Type 0 where
  pub g_last_id : Option ℕ
  pub g_commanding_client : Option ℕ
  pub g_clients : List ClientNode
  pub client_fd : Option ℕ
  pub revents : Events
  pub received : ℤ
  pub last_commander : Option ℕ
  pub tryout : ℕ
  pub log : List Effect

abbrev pub initial : Server
initial = record {
  g_last_id = none;
  g_commanding_client = none;
  g_clients = [];
  client_fd = none;
  revents = record {
    close = no_events;
    serial = no_events;
    server = no_events;
    client = no_events;
    user_cmd = no_events;
  };
  received = pos 0;
  last_commander = none;
  tryout = 0;
  log = [];
}
