-- ===== src/UartServer/Clients/Tests.antt =====
-- Clients at known inputs: two of them connected, the first in command.
use uav_mission_server.Prelude.{ℕ, ◌≡◌, refl, arith, List, [], ◌∷◌, ◌++◌, Option, none, some}
use uav_mission_server.UartServer.State.{ClientNode, Server, initial, parsed, closed}
use uav_mission_server.UartServer.Clients.{send_data_to_clients}
use uav_mission_server.UartServer.Clients.Returns.{send_data_to_clients_serves}
use uav_mission_server.UartServer.Clients.Served.{Served}
use uav_mission_server.UartServer.Clients.Tries.{recv_all, written}
use uav_mission_server.UartServer.Clients.Unresponsive.{recv_all_tryouts}

abbrev first : ClientNode
first = record { id = 0; addr = 0x7f000001; port = 4000; client = 7 }

abbrev second : ClientNode
second = record { id = 1; addr = 0x7f000001; port = 4001; client = 9 }

abbrev two : Server
two = record initial {
  g_last_id = some 1;
  g_commanding_client = some 0;
  g_clients = first ∷ second ∷ [];
  client_fd = some 7;
}

-- The first takes two bytes and then one; sending to the second fails.
send_data_to_clients_serves_example :
    (s' : Server) × (send_data_to_clients
        (some (1 ∷ 2 ∷ 3 ∷ []))
        (some 2 ∷ some 1 ∷ none ∷ none ∷ none ∷ none ∷ [])
        two
      ≡ some s')
    × Served
        (1 ∷ 2 ∷ 3 ∷ [])
        (parsed (1 ∷ 2 ∷ 3 ∷ []) ∷ [])
        s'.log
        (first ∷ second ∷ [])
        s'.g_clients
    × (s'.g_last_id ≡ some 1)
    × (s'.g_commanding_client ≡ some 0)
send_data_to_clients_serves_example =
    send_data_to_clients_serves 1 (2 ∷ 3 ∷ []) (some 2 ∷ some 1 ∷ none ∷ none ∷ none ∷ none ∷ [])
      two (omega arith, omega arith, (omega arith, omega arith, tt)) (omega arith)
      ((omega arith, tt), (tt, tt))

abbrev commands : List (Option (List ℕ))
commands = none ∷ some (5 ∷ []) ∷ some [] ∷ none ∷ some (6 ∷ []) ∷ []

recv_all_tryouts_example :
    ((recv_all commands two).g_clients ≡ first ∷ second ∷ [])
    × ((recv_all commands two).log ≡ written 0 commands [])
    × ((recv_all (commands ++ none ∷ []) two).g_clients ≡ second ∷ [])
    × ((recv_all (commands ++ none ∷ []) two).log ≡ closed 7 ∷ written 0 commands [])
recv_all_tryouts_example =
    recv_all_tryouts first (second ∷ []) commands none two refl refl refl refl
