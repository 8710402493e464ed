-- ===== src/UartServer/Loop/Ids.antt =====
-- How far the ids of clients go: `g_last_id` is an `int`, and no round adds more than one to it.
use uav_mission_server.Prelude.{
  ℕ, suc, ◌+◌, ◌≤◌, ◌<◌, ◌^◌, ◌≡◌, refl, sym, ap, ◌∙◌, arith, Bool, true, false, List, [], ◌∷◌,
  Option, none, some, some_injective, length, if◌then◌else◌, zero, inl, inr,
}
use mathlib.Core.Path.{subst}
use mathlib.Core.Option.{none-ne-some}
use uav_mission_server.Prelude.Int.{ℤ}
use uav_mission_server.UartServer.State.{ClientNode, Server, initial}
use uav_mission_server.UartServer.Command.{read_user_cmd}
use uav_mission_server.UartServer.Clients.{
  next_id, accept_client, accept_with, terminate_client, handle_commanding_client, recv_from,
  recv_failed, reset_tryout, serve_head, send_data_to_clients, send_loop, send_all,
}
use uav_mission_server.UartServer.Clients.Broadcast.{Sending-cases}
use uav_mission_server.UartServer.Clients.Writers.{loop_pending, loop_failed, loop_delivered}
use uav_mission_server.UartServer.Loop.{
  Inputs, next, ◌>>=◌, head_client, client_event, server_event, serial_event, user_cmd_event,
  after_command, take_command, clear_serial, clear_user_cmd, cleared, serve,
}
use uav_mission_server.UartServer.Loop.Invariant.{handlers, round-handlers}
use uav_mission_server.UartServer.Loop.Runs.{>>=-eq-next, next_injective, serve-eq-next}

-- The same last id.
Same : Server → Server → Type 0
Same s s' = s'.g_last_id ≡ s.g_last_id

Same-terminate_client :
    (node : Option ClientNode) (i : ℕ) (s : Server) → Same s (terminate_client node i s).0
unfolding Same terminate_client
Same-terminate_client none i s = refl
Same-terminate_client (some node) i s = ground arith

Same-recv_failed : (head : ClientNode) (s : Server) → Same s (recv_failed head s)
unfolding Same
Same-recv_failed head s =
    ground (arith, Same-terminate_client (some head) 0 (record s { tryout = s.tryout + 1 }))

Same-recv_from :
    (head : ClientNode) (received : Option (List ℕ)) (s : Server)
    → Same s (recv_from head received s)
unfolding Same
Same-recv_from head none s = Same-recv_failed head s
Same-recv_from head (some []) s = Same-recv_failed head s
Same-recv_from head (some (b ∷ bs)) s = refl

Same-reset_tryout : (s : Server) → Same s (reset_tryout s)
unfolding Same
Same-reset_tryout s = ground arith

Same-serve_head :
    (cs : List ClientNode) (received : Option (List ℕ)) (s : Server)
    → Same s (serve_head cs received s)
unfolding Same
Same-serve_head [] received s = refl
Same-serve_head (c ∷ cs) received s =
    Same-recv_from c received (reset_tryout s) ∙ Same-reset_tryout s

Same-client_event : (i : Inputs) (s : Server) → Same s (client_event i s)
unfolding Same client_event handle_commanding_client
Same-client_event i s =
    ground (arith, Same-terminate_client (head_client s) 0 s, Same-serve_head s.g_clients i.recv s)

server_event_next :
    (i : Inputs) (s : Server) → next_id (server_event i s).g_last_id ≤ suc (next_id s.g_last_id)
unfolding server_event accept_client accept_with
server_event_next i s = ground arith

Same-send_loop :
    (rounds : ℕ) (results : List (Option ℕ)) (bytes : List ℕ) (i : ℕ) (current : Option ClientNode)
    (s s' : Server)
    → send_loop rounds results bytes i current s ≡ some s'
    → Same s s'
unfolding Same send_loop
Same-send_loop zero results bytes i none s s' e = ap (λ t. t.g_last_id) (sym (some_injective e))
Same-send_loop (suc rounds) results bytes i none s s' e =
    ap (λ t. t.g_last_id) (sym (some_injective e))
Same-send_loop zero results bytes i (some node) s s' e = cc
Same-send_loop (suc rounds) results bytes i (some node) s s' e =
    elim (Sending-cases (send_all results node.client bytes 0 s.log)) [
      | inl p ↦ absurd (none-ne-some _ (sym (loop_pending rounds results bytes i node s p) ∙ e))
      | inr (inl (log, rest, p)) ↦
          Same-send_loop rounds rest bytes i _ _ s'
            (sym (loop_failed rounds results bytes i node s p) ∙ e)
          ∙ Same-terminate_client (some node) i (record s { log = log })
      | inr (inr (log, rest, p)) ↦
          Same-send_loop rounds rest bytes (i + 1) _ (record s { log = log }) s'
            (sym (loop_delivered rounds results bytes i node s p) ∙ e)
    ]

Same-send_data_to_clients :
    (received : Option (List ℕ)) (results : List (Option ℕ)) (s s' : Server)
    → send_data_to_clients received results s ≡ some s'
    → Same s s'
unfolding Same send_data_to_clients
Same-send_data_to_clients none results s s' e = ap (λ t. t.g_last_id) (sym (some_injective e))
Same-send_data_to_clients (some []) results s s' e = ap (λ t. t.g_last_id) (sym (some_injective e))
Same-send_data_to_clients (some (b ∷ bs)) results s s' e =
    Same-send_loop (length s.g_clients) results (b ∷ bs) 0 _ _ s' e

Same-cleared :
    (f : Server → Server)
    → ((t : Server) → Same t (f t))
    → (r : Option Server) (s s' : Server) → ((t : Server) → r ≡ some t → Same s t)
    → cleared f r ≡ some s'
    → Same s s'
unfolding Same
Same-cleared f keeps none s s' same e = cc
Same-cleared f keeps (some t) s s' same e =
    ap (λ x. x.g_last_id) (sym (some_injective e)) ∙ keeps t ∙ same t refl

Same-serial_event : (i : Inputs) (s s' : Server) → serial_event i s ≡ some s' → Same s s'
unfolding Same serial_event
Same-serial_event i s s' e = go s.revents.serial.pollin e
  where
    go :
        (b : Bool)
        → (if b then cleared clear_serial (send_data_to_clients i.serial_read i.send s) else some s)
          ≡ some s'
        → Same s s'
    go true q =
        Same-cleared clear_serial (λ t. refl) _ s s'
          (λ t. Same-send_data_to_clients i.serial_read i.send s t) q
    go false q = ap (λ t. t.g_last_id) (sym (some_injective q))

Same-after_command :
    (r : Option (ℤ × Option ℤ)) (s s' : Server) → after_command r s ≡ some s' → Same s s'
unfolding Same
Same-after_command none s s' e = cc
Same-after_command (some (received, none)) s s' e = ap (λ t. t.g_last_id) (sym (some_injective e))
Same-after_command (some (received, some n)) s s' e = ap (λ t. t.g_last_id) (sym (some_injective e))

Same-user_cmd_event : (i : Inputs) (s s' : Server) → user_cmd_event i s ≡ some s' → Same s s'
unfolding Same user_cmd_event
Same-user_cmd_event i s s' e = go s.revents.user_cmd.pollin e
  where
    command : Option (ℤ × Option ℤ)
    command = read_user_cmd i.user_cmd i.fifo_read s.received

    go :
        (b : Bool)
        → (if b then cleared clear_user_cmd (after_command command s) else some s) ≡ some s'
        → Same s s'
    go true q =
        Same-cleared clear_user_cmd (λ t. refl) _ s s' (λ t. Same-after_command command s t) q
    go false q = ap (λ t. t.g_last_id) (sym (some_injective q))

Same-take_command : (s : Server) → Same s (take_command s)
unfolding Same take_command
Same-take_command s = ground arith

handlers_next :
    (i : Inputs) (s s' : Server)
    → handlers i s ≡ next s'
    → next_id s'.g_last_id ≤ suc (next_id s.g_last_id)
unfolding Same
handlers_next i s s' e =
    let (served, p, e1) =
      >>=-eq-next _ (λ t. user_cmd_event i t >>= λ d. next (take_command d)) s' e in
    let (done, q, e2) = >>=-eq-next _ (λ d. next (take_command d)) s' e1 in
    let s1 = client_event i s in
    let same : s'.g_last_id ≡ (server_event i s1).g_last_id =
      ap (λ t. t.g_last_id) (sym (next_injective e2))
      ∙ Same-take_command done
      ∙ Same-user_cmd_event i served done q
      ∙ Same-serial_event i (server_event i s1) served p in
    subst (λ n. next_id n ≤ suc (next_id s.g_last_id)) (sym same)
      (subst (λ n. next_id (server_event i s1).g_last_id ≤ suc (next_id n)) (Same-client_event i s)
        (server_event_next i s1))

serve-next_id :
    (is : List Inputs) (s s' : Server)
    → serve is s ≡ next s'
    → next_id s'.g_last_id ≤ length is + next_id s.g_last_id
unfolding serve
serve-next_id [] s s' e =
    subst (λ t. next_id t.g_last_id ≤ 0 + next_id s.g_last_id) (next_injective e) (omega arith)
serve-next_id (i ∷ is) s s' e =
    let (t, p, more) = serve-eq-next i is s s' e in
    omega (
      arith,
      serve-next_id is t s' more,
      handlers_next i (record s { revents = i.events }) t (round-handlers i s t p),
    )

-- From the start, fewer than 2^31 rounds leave the next id in the range of an `int`.
next_id_fits :
    (is : List Inputs) (s' : Server)
    → serve is initial ≡ next s'
    → length is < 2 ^ 31
    → next_id s'.g_last_id < 2 ^ 31
next_id_fits is s' e short = omega (arith, serve-next_id is initial s' e)
