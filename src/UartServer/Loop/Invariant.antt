-- ===== src/UartServer/Loop/Invariant.antt =====
-- First come, first served: after each round of the main loop the oldest connected client is in
-- command, and its socket is the one polled for commands.
use mathlib.Core.Path.{subst}
use uav_mission_server.Prelude.{
  ℕ, ◌≤◌, ◌≡◌, refl, sym, ◌⊎◌, inl, inr, arith, true, List, [], ◌∷◌, Option, none, some,
  some_injective, get_elem?, Bool-cases,
}
use uav_mission_server.UartServer.State.{ClientNode, Server, initial}
use uav_mission_server.UartServer.Clients.{next_id, id_eq, send_data_to_clients}
use uav_mission_server.UartServer.Clients.Invariant.{
  Inv, Ids, Commanded, terminate_client-Inv, accept_client-Inv, handle_commanding_client-Inv,
}
use uav_mission_server.UartServer.Clients.Returns.{send_data_to_clients-Inv}
use uav_mission_server.UartServer.Loop.{
  Inputs, Round, next, ◌>>=◌, head_client, client_event, server_event, serial_event, user_cmd_event,
  command_by, take_command, clear_client, clear_serial, cleared, round, serve,
}
use uav_mission_server.UartServer.Loop.Runs.{>>=-eq-next, next_injective, serve-eq-next}

-- The head of the list commands and is polled; with no client nobody is.
abbrev pub Heads : Option ℕ → Option ℕ → List ClientNode → Type 0
Heads commander fd [] = fd ≡ none
Heads commander fd (c ∷ cs) = (commander ≡ some c.id) × (fd ≡ some c.client)

-- What holds between two rounds.
pub record Steady (s : Server) : Type 0 where
  pub inv : Inv s
  pub heads : Heads s.g_commanding_client s.client_fd s.g_clients

pub client_event-Inv : (i : Inputs) (s : Server) → Inv s → Inv (client_event i s)
unfolding client_event
client_event-Inv i s v = ground (
  arith,
  terminate_client-Inv (head_client s) 0 s refl v,
  handle_commanding_client-Inv i.recv s v,
)

pub server_event-Inv : (i : Inputs) (s : Server) → Inv s → Inv (server_event i s)
unfolding server_event
server_event-Inv i s v = ground (arith, accept_client-Inv i.allocated i.accepted s v)

clear_serial-Inv : (s : Server) → Inv s → Inv (clear_serial s)
clear_serial-Inv s v = record { ids = v.ids; known = v.known; commanded = v.commanded }

cleared_serial-Inv :
    (r : Option Server) (s' : Server)
    → ((t : Server) → r ≡ some t → Inv t)
    → cleared clear_serial r ≡ some s'
    → Inv s'
cleared_serial-Inv none s' keeps e = cc
cleared_serial-Inv (some t) s' keeps e =
    subst Inv (some_injective e) (clear_serial-Inv t (keeps t refl))

pub serial_event-Inv : (i : Inputs) (s s' : Server) → serial_event i s ≡ some s' → Inv s → Inv s'
unfolding serial_event
serial_event-Inv i s s' e v = ground (
  arith,
  cleared_serial-Inv (send_data_to_clients i.serial_read i.send s) s'
      (λ t returns. send_data_to_clients-Inv i.serial_read i.send s t returns v),
)

pub user_cmd_event-Inv :
    (i : Inputs) (s s' : Server) → user_cmd_event i s ≡ some s' → Inv s → Inv s'
unfolding user_cmd_event
user_cmd_event-Inv i s s' e v = ground arith

head_commands :
    (commander fd : Option ℕ) (c : ClientNode)
    → ((commander ≡ some c.id) × (fd ≡ some c.client)) ⊎ ((next_id commander ≤ c.id) × (fd ≡ none))
    → id_eq commander (some c.id) ≡ true
    → (commander ≡ some c.id) × (fd ≡ some c.client)
head_commands commander fd c h e = ground arith

abbrev taken : ClientNode → Server → Server
taken c s = clear_client (record s { client_fd = some c.client; g_commanding_client = some c.id })

taken-Steady :
    (c : ClientNode) (cs : List ClientNode) (s : Server)
    → s.g_clients ≡ c ∷ cs
    → Inv s
    → Steady (taken c s)
taken-Steady c cs s e v = record {
  inv = record {
    ids = v.ids;
    known = (subst (Ids 0 (next_id s.g_last_id)) e v.ids).1;
    commanded = subst (Commanded (some c.id) (some c.client)) (sym e) (inl (refl, refl));
  };
  heads = subst (Heads (some c.id) (some c.client)) (sym e) (refl, refl);
}

command_by-Steady :
    (cs : List ClientNode) (s : Server)
    → s.g_clients ≡ cs
    → Inv s
    → Steady (command_by (get_elem? cs 0) s)
command_by-Steady [] s e v = record {
  inv = v;
  heads =
      subst (Heads s.g_commanding_client s.client_fd) (sym e)
        (subst (Commanded s.g_commanding_client s.client_fd) e v.commanded);
}
command_by-Steady (c ∷ cs) s e v = elim (Bool-cases (id_eq s.g_commanding_client (some c.id))) [
  | inl same ↦ rw same (record {
    inv = v;
    heads = subst (Heads s.g_commanding_client s.client_fd) (sym e) (
        head_commands s.g_commanding_client s.client_fd c
          (subst (Commanded s.g_commanding_client s.client_fd) e v.commanded) same);
  })
  | inr other ↦ rw other (taken-Steady c cs s e v)
]

take_command-Steady : (s : Server) → Inv s → Steady (take_command s)
unfolding take_command
take_command-Steady s v = command_by-Steady s.g_clients s refl v

pub polled-Inv : (i : Inputs) (s : Server) → Inv s → Inv (record s { revents = i.events })
polled-Inv i s v = record { ids = v.ids; known = v.known; commanded = v.commanded }

-- The handlers of a round one after the other.
abbrev pub handlers : Inputs → Server → Round
handlers i s = serial_event i (server_event i (client_event i s)) >>= λ served.
    user_cmd_event i served >>= λ done. next (take_command done)

handlers-Steady : (i : Inputs) (s s' : Server) → handlers i s ≡ next s' → Inv s → Steady s'
handlers-Steady i s s' e v =
    let (served, p, e1) =
      >>=-eq-next _ (λ t. user_cmd_event i t >>= λ d. next (take_command d)) s' e in
    let (done, q, e2) = >>=-eq-next _ (λ d. next (take_command d)) s' e1 in
    let before = server_event-Inv i (client_event i s) (client_event-Inv i s v) in
    let after =
      user_cmd_event-Inv i served done q
        (serial_event-Inv i (server_event i (client_event i s)) served p before) in
    subst Steady (next_injective e2) (take_command-Steady done after)

pub round-handlers :
    (i : Inputs) (s s' : Server)
    → round i s ≡ next s'
    → handlers i (record s { revents = i.events }) ≡ next s'
unfolding round
round-handlers i s s' e = ground arith

-- Each round that goes on keeps the ids rising along the list, and ends with the oldest client in
-- command and its socket polled for commands, or with no client and nobody polled.
pub round-Steady : (i : Inputs) (s s' : Server) → round i s ≡ next s' → Steady s → Steady s'
round-Steady i s s' e v =
    handlers-Steady i (record s { revents = i.events }) s' (round-handlers i s s' e)
      (polled-Inv i s v.inv)

pub initial-Steady : Steady initial
initial-Steady = record {
  inv = record { ids = tt; known = omega arith; commanded = refl };
  heads = refl;
}

serve_from-Steady : (is : List Inputs) (s s' : Server) → serve is s ≡ next s' → Steady s → Steady s'
unfolding serve
serve_from-Steady [] s s' e v = subst Steady (next_injective e) v
serve_from-Steady (i ∷ is) s s' e v =
    let (t, p, more) = serve-eq-next i is s s' e in
    serve_from-Steady is t s' more (round-Steady i s t p v)

-- After any number of rounds from the start, with whatever the system calls give: the ids rise
-- along the list, and the oldest client connected is in command and polled, or nobody is.
pub serve-Steady : (is : List Inputs) (s' : Server) → serve is initial ≡ next s' → Steady s'
serve-Steady is s' e = serve_from-Steady is initial s' e initial-Steady
