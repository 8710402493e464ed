-- ===== src/UartServer/Loop/Heard.antt =====
-- What the main loop hands to `read_mavlink_msg`.
use mathlib.Core.List.{append-nil, append_assoc}
use uav_mission_server.Prelude.{
  ℕ, ◌≡◌, refl, sym, ap, ◌∙◌, arith, Bool, true, false, List, [], ◌∷◌, ◌++◌, Option, none, some,
  some_injective, if◌then◌else◌,
}
use uav_mission_server.Prelude.Int.{ℤ}
use uav_mission_server.UartServer.State.{Server}
use uav_mission_server.UartServer.Command.{read_user_cmd}
use uav_mission_server.UartServer.Clients.{
  accept_client, terminate_client, handle_commanding_client, send_data_to_clients,
}
use uav_mission_server.UartServer.Clients.Heard.{
  heard, stored, heard-terminate_client, heard-accept_client, heard-handle_commanding_client,
  heard-send_data_to_clients,
}
use uav_mission_server.UartServer.Loop.{
  Inputs, next, ◌>>=◌, head_client, client_event, server_event, serial_event, user_cmd_event,
  after_command, take_command, clear_serial, clear_user_cmd, cleared, serve,
}
use uav_mission_server.UartServer.Loop.Invariant.{handlers, round-handlers}
use uav_mission_server.UartServer.Loop.Runs.{>>=-eq-next, next_injective, serve-eq-next}

-- What the serial port gave in a round, nothing where `poll` did not report it.
abbrev pub given : Inputs → List ℕ
given i = if i.events.serial.pollin then stored i.serial_read else []

abbrev pub all_given : List Inputs → List ℕ
all_given [] = []
all_given (i ∷ is) = given i ++ all_given is

heard-client_event : (i : Inputs) (s : Server) → heard (client_event i s).log ≡ heard s.log
unfolding client_event
heard-client_event i s =
    ground
      (arith, heard-terminate_client (head_client s) 0 s, heard-handle_commanding_client i.recv s)

heard-server_event : (i : Inputs) (s : Server) → heard (server_event i s).log ≡ heard s.log
unfolding server_event
heard-server_event i s = ground (arith, heard-accept_client i.allocated i.accepted s)

heard-cleared :
    (f : Server → Server)
    → ((t : Server) → (f t).log ≡ t.log)
    → (r : Option Server) (s' : Server) → cleared f r ≡ some s'
    → (t : Server) × (r ≡ some t) × (heard s'.log ≡ heard t.log)
heard-cleared f keeps none s' e = cc
heard-cleared f keeps (some t) s' e =
    (t, refl, ap (λ x. heard x.log) (sym (some_injective e)) ∙ ap heard (keeps t))

heard-serial_event :
    (i : Inputs) (s s' : Server)
    → serial_event i s ≡ some s'
    → s.revents.serial ≡ i.events.serial
    → heard s'.log ≡ heard s.log ++ given i
heard-serial_event i s s' e polled =
    unfold serial_event in go s.revents.serial.pollin (ap (λ r. r.pollin) polled) e
  where
    go :
        (b : Bool)
        → b ≡ i.events.serial.pollin
        → (if b then cleared clear_serial (send_data_to_clients i.serial_read i.send s) else some s)
          ≡ some s'
        → heard s'.log ≡ heard s.log ++ given i
    go true same q =
        let (t, sent', is) =
          heard-cleared clear_serial (λ t. refl) (send_data_to_clients i.serial_read i.send s) s'
            q in
        rw (sym same) (is ∙ heard-send_data_to_clients i.serial_read i.send s t sent')
    go false same q =
        rw (sym same) (ap (λ x. heard x.log) (sym (some_injective q)) ∙ sym (append-nil _))

heard-after_command :
    (r : Option (ℤ × Option ℤ)) (s s' : Server)
    → after_command r s ≡ some s'
    → heard s'.log ≡ heard s.log
heard-after_command none s s' e = cc
heard-after_command (some (received, none)) s s' e = ap (λ x. heard x.log) (sym (some_injective e))
heard-after_command (some (received, some n)) s s' e =
    ap (λ x. heard x.log) (sym (some_injective e))

heard-user_cmd_event :
    (i : Inputs) (s s' : Server) → user_cmd_event i s ≡ some s' → heard s'.log ≡ heard s.log
heard-user_cmd_event i s s' e = unfold user_cmd_event in go s.revents.user_cmd.pollin e
  where
    command : Option (ℤ × Option ℤ)
    command = read_user_cmd i.user_cmd i.fifo_read s.received

    go :
        (b : Bool)
        → (if b then cleared clear_user_cmd (after_command command s) else some s) ≡ some s'
        → heard s'.log ≡ heard s.log
    go true q =
        let (t, after', is) =
          heard-cleared clear_user_cmd (λ t. refl) (after_command command s) s' q in
        is ∙ heard-after_command command s t after'
    go false q = ap (λ x. heard x.log) (sym (some_injective q))

heard-take_command : (s : Server) → heard (take_command s).log ≡ heard s.log
unfolding take_command
heard-take_command s = ground arith

-- The handlers before that of the serial port leave its events alone.
client_event-serial :
    (i : Inputs) (s : Server) → (client_event i s).revents.serial ≡ s.revents.serial
unfolding client_event terminate_client handle_commanding_client
client_event-serial i s = ground arith

server_event-serial :
    (i : Inputs) (s : Server) → (server_event i s).revents.serial ≡ s.revents.serial
unfolding server_event accept_client
server_event-serial i s = ground arith

heard-handlers :
    (i : Inputs) (s s' : Server)
    → handlers i s ≡ next s'
    → s.revents.serial ≡ i.events.serial
    → heard s'.log ≡ heard s.log ++ given i
heard-handlers i s s' e polled =
    let (served, p, e1) =
      >>=-eq-next _ (λ t. user_cmd_event i t >>= λ d. next (take_command d)) s' e in
    let (done, q, e2) = >>=-eq-next _ (λ d. next (take_command d)) s' e1 in
    let s1 = client_event i s in
    let s2 = server_event i s1 in
    ap (λ t. heard t.log) (sym (next_injective e2))
    ∙ heard-take_command done
    ∙ heard-user_cmd_event i served done q
    ∙ heard-serial_event i s2 served p (server_event-serial i s1 ∙ client_event-serial i s ∙ polled)
    ∙ ap (λ h. h ++ given i) (heard-server_event i s1 ∙ heard-client_event i s)

-- From any state on, a run hands over what the serial port gave in its rounds, in this order.
pub heard-serve :
    (is : List Inputs) (s s' : Server)
    → serve is s ≡ next s'
    → heard s'.log ≡ heard s.log ++ all_given is
unfolding serve
heard-serve [] s s' e = ap (λ t. heard t.log) (sym (next_injective e)) ∙ sym (append-nil _)
heard-serve (i ∷ is) s s' e =
    let (t, p, more) = serve-eq-next i is s s' e in
    heard-serve is t s' more
    ∙ ap (λ h. h ++ all_given is)
        (heard-handlers i (record s { revents = i.events }) t (round-handlers i s t p) refl)
    ∙ append_assoc (heard s.log) (given i) (all_given is)
