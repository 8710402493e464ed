-- ===== src/UartServer/Loop/Tests.antt =====
-- Rounds of the main loop at known inputs.
use uav_mission_server.Prelude.{ℕ, ◌≡◌, refl, true, false, List, [], ◌∷◌, ◌++◌, none, some}
use uav_mission_server.UartServer.State.{
  ClientNode, Revents, no_events, Server, initial, wrote, closed,
}
use uav_mission_server.UartServer.Clients.{
  accept_client, terminate_client, handle_commanding_client, send_data_to_clients, send_loop,
  send_all,
}
use uav_mission_server.UartServer.Clients.Writers.{Ordered}
use uav_mission_server.UartServer.Clients.Writes.{Added}
use uav_mission_server.UartServer.Loop.{
  Inputs, next, leave, client_event, server_event, serial_event, user_cmd_event, take_command,
  round, serve, shut_down,
}
use uav_mission_server.UartServer.Loop.Invariant.{Steady, serve-Steady}
use uav_mission_server.UartServer.Loop.Writers.{serve-Ordered}
use uav_mission_server.UartServer.Loop.ShutDown.{close_all, serve_leaves}

abbrev input : Revents
input = record no_events { pollin = true }

abbrev readable : Revents
readable = input

abbrev hung_up : Revents
hung_up = record no_events { pollhup = true }

abbrev quiet : Inputs
quiet = record {
  poll_failed = false;
  events = initial.revents;
  recv = none;
  allocated = true;
  accepted = record { socket = none; is_inet = true; addr = 0; port = 0 };
  serial_read = none;
  send = [];
  user_cmd = [];
  fifo_read = none;
}

abbrev connects : ℕ → Inputs
connects fd = record quiet {
  events = record quiet.events { server = input };
  accepted = record { socket = some fd; is_inet = true; addr = 1; port = 2 };
}

abbrev writes : List ℕ → Inputs
writes bytes = record quiet {
  events = record quiet.events { client = readable };
  recv = some bytes;
}

abbrev hangs_up : Inputs
hangs_up = record quiet { events = record quiet.events { client = hung_up } }

abbrev closes : Inputs
closes = record quiet { events = record quiet.events { close = input } }

-- Two clients connect; the first writes and hangs up, and then the second writes.
abbrev session : List Inputs
session = connects 5 ∷ connects 6 ∷ writes (10 ∷ []) ∷ hangs_up ∷ writes (11 ∷ []) ∷ []

abbrev node : ℕ → ℕ → ClientNode
node id fd = record { id = id; addr = 1; port = 2; client = fd }

abbrev after : Server
after = record initial {
  g_last_id = some 1;
  g_commanding_client = some 1;
  g_clients = node 1 6 ∷ [];
  client_fd = some 6;
  last_commander = some 1;
  log = wrote 1 (11 ∷ []) ∷ closed 5 ∷ wrote 0 (10 ∷ []) ∷ [];
}

session_runs : serve session initial ≡ next after
unfolding serve round client_event server_event serial_event user_cmd_event take_command
    accept_client terminate_client handle_commanding_client
session_runs = refl

serve-Steady_example : Steady after
serve-Steady_example = serve-Steady session after session_runs

-- The session up to its last round.
abbrev session_start : List Inputs
session_start = connects 5 ∷ connects 6 ∷ writes (10 ∷ []) ∷ hangs_up ∷ []

abbrev passed_on : Server
passed_on = record after { last_commander = some 0; log = closed 5 ∷ wrote 0 (10 ∷ []) ∷ [] }

session_starts : serve session_start initial ≡ next passed_on
unfolding serve round client_event server_event serial_event user_cmd_event take_command
    accept_client terminate_client handle_commanding_client
session_starts = refl

last_round : round (writes (11 ∷ [])) passed_on ≡ next after
unfolding round client_event server_event serial_event user_cmd_event take_command accept_client
    terminate_client handle_commanding_client
last_round = refl

serve-Ordered_example :
    Added (some 1) (some (11 ∷ [])) ((0, 10 ∷ []) ∷ []) ((1, 11 ∷ []) ∷ (0, 10 ∷ []) ∷ [])
    × Ordered after
serve-Ordered_example =
    serve-Ordered session_start (writes (11 ∷ [])) passed_on after session_starts last_round

closing_runs :
    serve (connects 5 ∷ closes ∷ []) initial
    ≡ leave true (record initial {
      g_last_id = some 0;
      g_commanding_client = some 0;
      log = closed 5 ∷ [];
      revents = record initial.revents { close = input };
    })
unfolding serve round client_event server_event serial_event user_cmd_event take_command
    accept_client terminate_client shut_down
closing_runs = refl

abbrev closed_down : Server
closed_down = record initial {
  g_last_id = some 0;
  g_commanding_client = some 0;
  log = closed 5 ∷ [];
  revents = record initial.revents { close = readable };
}

serve_leaves_example :
    (t : Server) × (closed_down.g_clients ≡ [])
    × (closed_down.log ≡ close_all t.g_clients t.log)
    × (before : List Inputs) × (i : Inputs) × (rest : List Inputs) × (u : Server) × ((connects 5
          ∷ closes
          ∷ [])
        ≡ before ++ i ∷ rest)
    × (serve before initial ≡ next u)
    × (round i u ≡ leave true t)
serve_leaves_example = serve_leaves (connects 5 ∷ closes ∷ []) initial closed_down true closing_runs

-- Two clients connect, three messages come, of which the first client gets nothing, and then two more.
abbrev hears : List ℕ → Inputs
hears received = record quiet {
  events = record quiet.events { serial = input };
  serial_read = some received;
  send = none ∷ some 3 ∷ [];
}

abbrev pub heard_session : List Inputs
heard_session =
    connects 5 ∷ connects 6 ∷ hears (4 ∷ 65 ∷ 148 ∷ []) ∷ hangs_up ∷ hears (76 ∷ 4 ∷ []) ∷ []

pub heard_runs : (server' : Server) × (serve heard_session initial ≡ next server')
unfolding serve round client_event server_event serial_event user_cmd_event take_command
    accept_client terminate_client handle_commanding_client send_data_to_clients send_loop send_all
heard_runs = (_, refl)
