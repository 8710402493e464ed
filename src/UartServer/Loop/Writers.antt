-- ===== src/UartServer/Loop/Writers.antt =====
-- Who writes to the serial port: only the client in command, and command passes on to later clients.
use mathlib.Core.Path.{subst}
use uav_mission_server.Prelude.{
  ℕ, suc, ◌≡◌, refl, arith, List, [], ◌∷◌, Option, none, some, some_injective, get_elem?,
}
use uav_mission_server.UartServer.State.{ClientNode, Server, initial}
use uav_mission_server.UartServer.Clients.{next_id, send_data_to_clients}
use uav_mission_server.UartServer.Clients.Invariant.{Inv, Commanded}
use uav_mission_server.UartServer.Clients.Writers.{
  WritersRise-mono, Ordered, HeadCommands, terminate_client-Ordered, accept_client-Ordered,
  handle_commanding_client-Ordered, send_data_to_clients-Ordered,
}
use uav_mission_server.UartServer.Loop.{
  Inputs, next, ◌>>=◌, head_client, client_event, server_event, serial_event, user_cmd_event,
  command_by, take_command, clear_serial, cleared, round, serve,
}
use uav_mission_server.UartServer.Loop.Invariant.{
  Steady, serve-Steady, Heads, initial-Steady, round-Steady, handlers, round-handlers,
  client_event-Inv, server_event-Inv, serial_event-Inv, user_cmd_event-Inv, polled-Inv,
}
use uav_mission_server.UartServer.Clients.Writes.{writes, Added}
use uav_mission_server.UartServer.Loop.Writes.{round-Added}
use uav_mission_server.UartServer.Loop.Runs.{>>=-eq-next, next_injective, serve-eq-next}

client_event-Ordered :
    (i : Inputs) (s : Server)
    → HeadCommands s.g_commanding_client s.g_clients
    → Ordered s
    → Ordered (client_event i s)
unfolding client_event
client_event-Ordered i s h w = ground (
  arith,
  terminate_client-Ordered (head_client s) 0 s w,
  handle_commanding_client-Ordered i.recv s h w,
)

server_event-Ordered : (i : Inputs) (s : Server) → Ordered s → Ordered (server_event i s)
unfolding server_event
server_event-Ordered i s w = ground (arith, accept_client-Ordered i.allocated i.accepted s w)

cleared-Ordered :
    (r : Option Server) (s' : Server)
    → ((t : Server) → r ≡ some t → Ordered t)
    → cleared clear_serial r ≡ some s'
    → Ordered s'
cleared-Ordered none s' keeps e = cc
cleared-Ordered (some t) s' keeps e = subst Ordered (some_injective e) (keeps t refl)

serial_event-Ordered :
    (i : Inputs) (s s' : Server) → serial_event i s ≡ some s' → Ordered s → Ordered s'
unfolding serial_event
serial_event-Ordered i s s' e w = ground (
  arith,
  cleared-Ordered (send_data_to_clients i.serial_read i.send s) s'
      (λ t returns. send_data_to_clients-Ordered i.serial_read i.send s t returns w),
)

user_cmd_event-Ordered :
    (i : Inputs) (s s' : Server) → user_cmd_event i s ≡ some s' → Ordered s → Ordered s'
unfolding user_cmd_event
user_cmd_event-Ordered i s s' e w = ground arith

command_by-Ordered :
    (cs : List ClientNode) (s : Server)
    → Commanded s.g_commanding_client s.client_fd cs
    → Ordered s
    → Ordered (command_by (get_elem? cs 0) s)
command_by-Ordered [] s h w = w
command_by-Ordered (c ∷ cs) s h w =
    ground (arith, WritersRise-mono (next_id s.g_commanding_client) (suc c.id) s.log)

take_command-Ordered : (s : Server) → Inv s → Ordered s → Ordered (take_command s)
unfolding take_command
take_command-Ordered s v w = command_by-Ordered s.g_clients s v.commanded w

Heads-HeadCommands :
    (commander fd : Option ℕ) (cs : List ClientNode)
    → Heads commander fd cs
    → HeadCommands commander cs
Heads-HeadCommands commander fd [] h = tt
Heads-HeadCommands commander fd (c ∷ cs) h = h.0

handlers-Ordered :
    (i : Inputs) (s s' : Server)
    → handlers i s ≡ next s'
    → HeadCommands s.g_commanding_client s.g_clients
    → Inv s
    → Ordered s
    → Ordered s'
handlers-Ordered i s s' e h v w =
    let (served, p, e1) =
      >>=-eq-next _ (λ t. user_cmd_event i t >>= λ d. next (take_command d)) s' e in
    let (done, q, e2) = >>=-eq-next _ (λ d. next (take_command d)) s' e1 in
    let s1 = client_event i s in
    let s2 = server_event i s1 in
    let v2 = server_event-Inv i s1 (client_event-Inv i s v) in
    let w2 = server_event-Ordered i s1 (client_event-Ordered i s h w) in
    let v3 = serial_event-Inv i s2 served p v2 in
    let w3 = serial_event-Ordered i s2 served p w2 in
    subst Ordered (next_injective e2) (
      take_command-Ordered done (user_cmd_event-Inv i served done q v3)
        (user_cmd_event-Ordered i served done q w3))

round-Ordered :
    (i : Inputs) (s s' : Server) → round i s ≡ next s' → Steady s → Ordered s → Ordered s'
round-Ordered i s s' e v w =
    handlers-Ordered i (record s { revents = i.events }) s' (round-handlers i s s' e)
      (Heads-HeadCommands s.g_commanding_client s.client_fd s.g_clients v.heads)
      (polled-Inv i s v.inv) w

serve_from-Ordered :
    (is : List Inputs) (s s' : Server) → serve is s ≡ next s' → Steady s → Ordered s → Ordered s'
unfolding serve
serve_from-Ordered [] s s' e v w = subst Ordered (next_injective e) w
serve_from-Ordered (i ∷ is) s s' e v w =
    let (t, p, more) = serve-eq-next i is s s' e in
    serve_from-Ordered is t s' more (round-Steady i s t p v) (round-Ordered i s t p v w)

-- In any run of the main loop from the start, with whatever the system calls give, of which `i` is one
-- round: the round hands nothing of a client to the serial port, or it hands over what it received from
-- one client, the one that is in command when it begins; and the clients have written in the order in
-- which they connected, up to the one in command: once a client has written, none that connected before
-- it writes again.
pub serve-Ordered :
    (before : List Inputs) (i : Inputs) (u s' : Server)
    → serve before initial ≡ next u
    → round i u ≡ next s'
    → Added u.g_commanding_client i.recv (writes u.log) (writes s'.log) × Ordered s'
serve-Ordered before i u s' e r =
    let v = serve-Steady before u e in
    (
      round-Added i u s' r
          (Heads-HeadCommands u.g_commanding_client u.client_fd u.g_clients v.heads),
      round-Ordered i u s' r v (serve_from-Ordered before initial u e initial-Steady tt),
    )
