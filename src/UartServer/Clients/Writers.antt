-- ===== src/UartServer/Clients/Writers.antt =====
-- Who writes to the serial port, handler by handler.
use mathlib.Core.Path.{subst}
use uav_mission_server.Prelude.{
  ℕ, zero, suc, ◌+◌, ◌≤◌, ◌<◌, ◌≡◌, sym, ap, ◌∙◌, inl, inr, arith, Bool, List, [], ◌∷◌, Option,
  none, some, some_injective, get_elem?, length, Bool-cases, ◌==◌, take, drop,
}
use mathlib.Core.Option.{none-ne-some}
use uav_mission_server.UartServer.State.{
  ClientNode, Server, Effect, sent, closed, wrote, parsed, tune,
}
use uav_mission_server.UartServer.Clients.{
  next_id, accept_client, Accepted, terminate_client, handle_commanding_client, serve_head,
  recv_from, recv_failed, reset_tryout, send_data_to_clients, send_all, send_loop, Sending, failed,
  delivered, pending,
}
use uav_mission_server.UartServer.Clients.Broadcast.{Sending-cases}

-- The ids whose bytes were written stay below `bound`, and fall along the log, which has the newest
-- entry first: who has once written after another never writes before it again.
abbrev pub WritersRise : ℕ → List Effect → Type 0
WritersRise bound [] = Unit {0}
WritersRise bound (wrote id bytes ∷ log) = (id < bound) × WritersRise (suc id) log
WritersRise bound (sent fd bytes ∷ log) = WritersRise bound log
WritersRise bound (closed fd ∷ log) = WritersRise bound log
WritersRise bound (parsed bytes ∷ log) = WritersRise bound log
WritersRise bound (tune n ∷ log) = WritersRise bound log

pub WritersRise-mono :
    (low high : ℕ) (log : List Effect) → low ≤ high → WritersRise low log → WritersRise high log
WritersRise-mono low high [] h w = tt
WritersRise-mono low high (wrote id bytes ∷ log) h w = (omega arith, w.1)
WritersRise-mono low high (sent fd bytes ∷ log) h w = WritersRise-mono low high log h w
WritersRise-mono low high (closed fd ∷ log) h w = WritersRise-mono low high log h w
WritersRise-mono low high (parsed bytes ∷ log) h w = WritersRise-mono low high log h w
WritersRise-mono low high (tune n ∷ log) h w = WritersRise-mono low high log h w

-- Of a state: with the commander as the bound.
abbrev pub Ordered : Server → Type 0
Ordered s = WritersRise (next_id s.g_commanding_client) s.log

pub terminate_client-Ordered :
    (node : Option ClientNode) (i : ℕ) (s : Server)
    → Ordered s
    → Ordered (terminate_client node i s).0
unfolding terminate_client
terminate_client-Ordered none i s w = w
terminate_client-Ordered (some node) i s w = ground arith

pub accept_client-Ordered :
    (allocated : Bool) (a : Accepted) (s : Server)
    → Ordered s
    → Ordered (accept_client allocated a s).0
unfolding accept_client
accept_client-Ordered allocated a s w = ground arith

-- The client that the handler reads from, if there is one, is in command.
abbrev pub HeadCommands : Option ℕ → List ClientNode → Type 0
HeadCommands commander [] = Unit {0}
HeadCommands commander (c ∷ cs) = commander ≡ some c.id

recv_failed-Ordered : (head : ClientNode) (s : Server) → Ordered s → Ordered (recv_failed head s)
recv_failed-Ordered head s w =
    ground (arith, terminate_client-Ordered (some head) 0 (record s { tryout = s.tryout + 1 }) w)

recv_from-Ordered :
    (head : ClientNode) (received : Option (List ℕ)) (s : Server)
    → s.g_commanding_client ≡ some head.id
    → Ordered s
    → Ordered (recv_from head received s)
recv_from-Ordered head none s e w = recv_failed-Ordered head s w
recv_from-Ordered head (some []) s e w = recv_failed-Ordered head s w
recv_from-Ordered head (some (b ∷ bs)) s e w =
    let bound : next_id s.g_commanding_client ≡ suc head.id = ap next_id e in
    (omega arith, subst (λ n. WritersRise n s.log) bound w)

reset_tryout-Ordered :
    (s : Server)
    → Ordered s
    → Ordered (reset_tryout s) × ((reset_tryout s).g_commanding_client ≡ s.g_commanding_client)
reset_tryout-Ordered s w = ground arith

serve_head-Ordered :
    (cs : List ClientNode) (received : Option (List ℕ)) (s : Server)
    → HeadCommands s.g_commanding_client cs
    → Ordered s
    → Ordered (serve_head cs received s)
serve_head-Ordered [] received s h w = w
serve_head-Ordered (c ∷ cs) received s h w =
    let (kept, same) = reset_tryout-Ordered s w in
    recv_from-Ordered c received (reset_tryout s) (same ∙ h) kept

pub handle_commanding_client-Ordered :
    (received : Option (List ℕ)) (s : Server)
    → HeadCommands s.g_commanding_client s.g_clients
    → Ordered s
    → Ordered (handle_commanding_client received s)
unfolding handle_commanding_client
handle_commanding_client-Ordered received s h w = serve_head-Ordered s.g_clients received s h w

-- The log of a `Sending`.
abbrev SendingRises : ℕ → Sending → Type 0
SendingRises bound pending = Unit
SendingRises bound (failed log rest) = WritersRise bound log
SendingRises bound (delivered log rest) = WritersRise bound log

send_all-Rises :
    (bound : ℕ) (results : List (Option ℕ)) (fd : ℕ) (bytes : List ℕ) (done : ℕ) (log : List Effect)
    → WritersRise bound log
    → SendingRises bound (send_all results fd bytes done log)
unfolding send_all
send_all-Rises bound [] fd bytes done log w = tt
send_all-Rises bound (none ∷ results) fd bytes done log w = w
send_all-Rises bound (some n ∷ results) fd bytes done log w =
    let chunk : List ℕ = take n (drop done bytes) in
    elim (Bool-cases (done + n == length bytes)) [
      | inl all ↦ rw all w
      | inr more ↦
          rw more (send_all-Rises bound results fd bytes (done + n) (sent fd chunk ∷ log) w)
    ]

module _ (rounds : ℕ) (results : List (Option ℕ)) (bytes : List ℕ) (i : ℕ) (node : ClientNode)
    (s : Server) where
  pub loop_pending :
      send_all results node.client bytes 0 s.log ≡ pending
      → send_loop (suc rounds) results bytes i (some node) s ≡ none
  unfolding send_loop
  loop_pending p = rw (p, send_loop)

  pub loop_failed :
      {log : List Effect} {rest : List (Option ℕ)}
      → send_all results node.client bytes 0 s.log ≡ failed log rest
      → let r = terminate_client (some node) i (record s { log = log }) in
        send_loop (suc rounds) results bytes i (some node) s ≡ send_loop rounds rest bytes i r.1 r.0
  unfolding send_loop
  loop_failed p = rw (p, send_loop)

  pub loop_delivered :
      {log : List Effect} {rest : List (Option ℕ)}
      → send_all results node.client bytes 0 s.log ≡ delivered log rest
      → send_loop (suc rounds) results bytes i (some node) s
        ≡ send_loop rounds rest bytes
            (i + 1)
            (get_elem? s.g_clients (i + 1))
            (record s { log = log })
  unfolding send_loop
  loop_delivered p = rw (p, send_loop)

send_loop-Ordered :
    (rounds : ℕ) (results : List (Option ℕ)) (bytes : List ℕ) (i : ℕ) (current : Option ClientNode)
    (s s' : Server)
    → send_loop rounds results bytes i current s ≡ some s'
    → Ordered s
    → Ordered s'
unfolding send_loop
send_loop-Ordered zero results bytes i none s s' e w = subst Ordered (some_injective e) w
send_loop-Ordered (suc rounds) results bytes i none s s' e w = subst Ordered (some_injective e) w
send_loop-Ordered zero results bytes i (some node) s s' e w = cc
send_loop-Ordered (suc rounds) results bytes i (some node) s s' e w =
    let rises =
      send_all-Rises (next_id s.g_commanding_client) results node.client bytes 0 s.log w in
    elim (Sending-cases (send_all results node.client bytes 0 s.log)) [
      | inl p ↦ absurd (none-ne-some _ (sym (loop_pending rounds results bytes i node s p) ∙ e))
      | inr (inl (log, rest, p)) ↦
          send_loop-Ordered rounds rest bytes i _ _ s'
            (sym (loop_failed rounds results bytes i node s p) ∙ e)
            (terminate_client-Ordered (some node) i (record s { log = log })
              (subst (SendingRises (next_id s.g_commanding_client)) p rises))
      | inr (inr (log, rest, p)) ↦
          send_loop-Ordered rounds rest bytes (i + 1) _ (record s { log = log }) s'
            (sym (loop_delivered rounds results bytes i node s p) ∙ e)
            (subst (SendingRises (next_id s.g_commanding_client)) p rises)
    ]

pub send_data_to_clients-Ordered :
    (received : Option (List ℕ)) (results : List (Option ℕ)) (s s' : Server)
    → send_data_to_clients received results s ≡ some s'
    → Ordered s
    → Ordered s'
unfolding send_data_to_clients
send_data_to_clients-Ordered none results s s' e w = subst Ordered (some_injective e) w
send_data_to_clients-Ordered (some []) results s s' e w = subst Ordered (some_injective e) w
send_data_to_clients-Ordered (some (b ∷ bs)) results s s' e w =
    send_loop-Ordered (length s.g_clients) results (b ∷ bs) 0 _ _ s' e w
