-- ===== src/UartServer/Loop/Writes.antt =====
-- What the rounds of the main loop write to the serial port.
use mathlib.Core.Path.{subst}
use uav_mission_server.Prelude.{
  ◌||◌, true, false, inl, inl, ◌||◌, ◌≡◌, refl, sym, ap, ◌∙◌, arith, Bool, true, false, Option,
  none, some, some_injective, if◌then◌else◌,
}
use uav_mission_server.Prelude.Int.{ℤ}
use uav_mission_server.UartServer.State.{Server}
use uav_mission_server.UartServer.Command.{read_user_cmd}
use uav_mission_server.UartServer.Clients.{
  terminate_client, handle_commanding_client, send_data_to_clients,
}
use uav_mission_server.UartServer.Clients.Writers.{HeadCommands}
use uav_mission_server.UartServer.Clients.Writes.{
  Added, handle_commanding_client-Added, writes, writes-terminate_client, writes-accept_client,
  writes-send_data_to_clients,
}
use uav_mission_server.UartServer.Loop.{
  clear_client, head_client, Inputs, next, ◌>>=◌, head_client, client_event, server_event,
  serial_event, user_cmd_event, after_command, take_command, clear_serial, clear_user_cmd, cleared,
  round,
}
use uav_mission_server.UartServer.Loop.Invariant.{handlers, round-handlers}
use uav_mission_server.UartServer.Loop.Runs.{>>=-eq-next, next_injective}

client_event-Added :
    (i : Inputs) (s : Server)
    → HeadCommands s.g_commanding_client s.g_clients
    → Added s.g_commanding_client i.recv (writes s.log) (writes (client_event i s).log)
unfolding client_event
client_event-Added i s h =
    go (s.revents.client.pollhup || s.revents.client.pollerr) s.revents.client.pollin
  where
    go :
        (hangs readable : Bool)
        → Added s.g_commanding_client i.recv (writes s.log) (
            writes
              (if hangs
                then (terminate_client (head_client s) 0 s).0
                else if readable
                then clear_client (handle_commanding_client i.recv s)
                else s).log)
    go true readable = inl (writes-terminate_client (head_client s) 0 s)
    go false true = handle_commanding_client-Added i.recv s h
    go false false = inl refl

writes-server_event : (i : Inputs) (s : Server) → writes (server_event i s).log ≡ writes s.log
unfolding server_event
writes-server_event i s = ground (arith, writes-accept_client i.allocated i.accepted s)

writes-cleared :
    (f : Server → Server)
    → ((t : Server) → (f t).log ≡ t.log)
    → (r : Option Server) (s' : Server) → cleared f r ≡ some s'
    → (t : Server) × (r ≡ some t) × (writes s'.log ≡ writes t.log)
writes-cleared f keeps none s' e = cc
writes-cleared f keeps (some t) s' e =
    (t, refl, ap (λ x. writes x.log) (sym (some_injective e)) ∙ ap writes (keeps t))

writes-serial_event :
    (i : Inputs) (s s' : Server) → serial_event i s ≡ some s' → writes s'.log ≡ writes s.log
writes-serial_event i s s' e = unfold serial_event in go s.revents.serial.pollin e
  where
    go :
        (b : Bool)
        → (if b then cleared clear_serial (send_data_to_clients i.serial_read i.send s) else some s)
          ≡ some s'
        → writes s'.log ≡ writes s.log
    go true q =
        let (t, sent', is) =
          writes-cleared clear_serial (λ t. refl) (send_data_to_clients i.serial_read i.send s) s'
            q in
        is ∙ writes-send_data_to_clients i.serial_read i.send s t sent'
    go false q = ap (λ x. writes x.log) (sym (some_injective q))

writes-after_command :
    (r : Option (ℤ × Option ℤ)) (s s' : Server)
    → after_command r s ≡ some s'
    → writes s'.log ≡ writes s.log
writes-after_command none s s' e = cc
writes-after_command (some (received, none)) s s' e =
    ap (λ x. writes x.log) (sym (some_injective e))
writes-after_command (some (received, some n)) s s' e =
    ap (λ x. writes x.log) (sym (some_injective e))

writes-user_cmd_event :
    (i : Inputs) (s s' : Server) → user_cmd_event i s ≡ some s' → writes s'.log ≡ writes s.log
writes-user_cmd_event i s s' e = unfold user_cmd_event in go s.revents.user_cmd.pollin e
  where
    command : Option (ℤ × Option ℤ)
    command = read_user_cmd i.user_cmd i.fifo_read s.received

    go :
        (b : Bool)
        → (if b then cleared clear_user_cmd (after_command command s) else some s) ≡ some s'
        → writes s'.log ≡ writes s.log
    go true q =
        let (t, after', is) =
          writes-cleared clear_user_cmd (λ t. refl) (after_command command s) s' q in
        is ∙ writes-after_command command s t after'
    go false q = ap (λ x. writes x.log) (sym (some_injective q))

writes-take_command : (s : Server) → writes (take_command s).log ≡ writes s.log
unfolding take_command
writes-take_command s = ground arith

handlers-Added :
    (i : Inputs) (s s' : Server)
    → handlers i s ≡ next s'
    → HeadCommands s.g_commanding_client s.g_clients
    → Added s.g_commanding_client i.recv (writes s.log) (writes s'.log)
handlers-Added i s s' e h =
    let (served, p, e1) =
      >>=-eq-next _ (λ t. user_cmd_event i t >>= λ d. next (take_command d)) s' e in
    let (done, q, e2) = >>=-eq-next _ (λ d. next (take_command d)) s' e1 in
    let s1 = client_event i s in
    let s2 = server_event i s1 in
    let same : writes s'.log ≡ writes s1.log =
      ap (λ t. writes t.log) (sym (next_injective e2))
      ∙ writes-take_command done
      ∙ writes-user_cmd_event i served done q
      ∙ writes-serial_event i s2 served p
      ∙ writes-server_event i s1 in
    subst (Added s.g_commanding_client i.recv (writes s.log)) (sym same) (client_event-Added i s h)

-- A round writes nothing, or what was received from the client that is in command when it begins.
pub round-Added :
    (i : Inputs) (s s' : Server)
    → round i s ≡ next s'
    → HeadCommands s.g_commanding_client s.g_clients
    → Added s.g_commanding_client i.recv (writes s.log) (writes s'.log)
round-Added i s s' e h =
    handlers-Added i (record s { revents = i.events }) s' (round-handlers i s s' e) h
