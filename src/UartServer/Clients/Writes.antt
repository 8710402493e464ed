-- ===== src/UartServer/Clients/Writes.antt =====
-- What the handlers write to the serial port for clients, read off the log.
use mathlib.Core.Path.{subst}
use uav_mission_server.Prelude.{
  ℕ, zero, suc, ◌+◌, ◌≡◌, refl, sym, ap, ◌∙◌, inl, inr, ◌⊎◌, arith, Bool, List, [], ◌∷◌, Option,
  none, some, some_injective, length, Bool-cases, ◌==◌, take, drop,
}
use mathlib.Core.Option.{none-ne-some}
use uav_mission_server.UartServer.State.{
  ClientNode, Server, Effect, sent, closed, wrote, parsed, tune,
}
use uav_mission_server.UartServer.Clients.{
  accept_client, Accepted, terminate_client, handle_commanding_client, serve_head, recv_from,
  recv_failed, reset_tryout, send_data_to_clients, send_all, send_loop, Sending, failed, delivered,
  pending,
}
use uav_mission_server.UartServer.Clients.Broadcast.{Sending-cases}
use uav_mission_server.UartServer.Clients.Writers.{
  HeadCommands, loop_pending, loop_failed, loop_delivered,
}

-- What was written to the serial port in a log, newest first: the client and the bytes.
abbrev pub writes : List Effect → List (ℕ × List ℕ)
writes [] = []
writes (wrote id bytes ∷ log) = (id, bytes) ∷ writes log
writes (sent fd bytes ∷ log) = writes log
writes (closed fd ∷ log) = writes log
writes (parsed bytes ∷ log) = writes log
writes (tune n ∷ log) = writes log

-- Nothing new is written, or what was received, by the client in command.
abbrev pub Added : Option ℕ → Option (List ℕ) → List (ℕ × List ℕ) → List (ℕ × List ℕ) → Type 0
Added commander received before after' =
    (after' ≡ before)
    ⊎ ((id : ℕ) × (bytes : List ℕ) × (commander ≡ some id)
        × (received ≡ some bytes)
        × (after' ≡ (id, bytes) ∷ before))

pub writes-terminate_client :
    (node : Option ClientNode) (i : ℕ) (s : Server)
    → writes (terminate_client node i s).0.log ≡ writes s.log
unfolding terminate_client
writes-terminate_client none i s = refl
writes-terminate_client (some node) i s = ground arith

pub writes-accept_client :
    (allocated : Bool) (a : Accepted) (s : Server)
    → writes (accept_client allocated a s).0.log ≡ writes s.log
unfolding accept_client
writes-accept_client allocated a s = ground arith

writes-recv_failed :
    (head : ClientNode) (s : Server) → writes (recv_failed head s).log ≡ writes s.log
writes-recv_failed head s =
    ground (arith, writes-terminate_client (some head) 0 (record s { tryout = s.tryout + 1 }))

recv_from-Added :
    (head : ClientNode) (received : Option (List ℕ)) (s : Server)
    → Added (some head.id) received (writes s.log) (writes (recv_from head received s).log)
recv_from-Added head none s = inl (writes-recv_failed head s)
recv_from-Added head (some []) s = inl (writes-recv_failed head s)
recv_from-Added head (some (b ∷ bs)) s = inr (head.id, b ∷ bs, refl, refl, refl)

writes-reset_tryout : (s : Server) → writes (reset_tryout s).log ≡ writes s.log
writes-reset_tryout s = ground arith

serve_head-Added :
    (cs : List ClientNode) (received : Option (List ℕ)) (s : Server)
    → HeadCommands s.g_commanding_client cs
    → Added s.g_commanding_client received (writes s.log) (writes (serve_head cs received s).log)
serve_head-Added [] received s h = inl refl
serve_head-Added (c ∷ cs) received s h =
    subst
      (λ w.
        Added s.g_commanding_client received w (writes (recv_from c received (reset_tryout s)).log))
      (writes-reset_tryout s)
      (subst
        (λ m.
          Added m received (writes (reset_tryout s).log)
            (writes (recv_from c received (reset_tryout s)).log))
        (sym h) (recv_from-Added c received (reset_tryout s)))

pub handle_commanding_client-Added :
    (received : Option (List ℕ)) (s : Server)
    → HeadCommands s.g_commanding_client s.g_clients
    → Added s.g_commanding_client received
        (writes s.log)
        (writes (handle_commanding_client received s).log)
unfolding handle_commanding_client
handle_commanding_client-Added received s h = serve_head-Added s.g_clients received s h

-- Sending adds nothing.
abbrev SendingWrites : List (ℕ × List ℕ) → Sending → Type 0
SendingWrites bytes pending = Unit
SendingWrites bytes (failed log rest) = writes log ≡ bytes
SendingWrites bytes (delivered log rest) = writes log ≡ bytes

send_all-SendingWrites :
    (results : List (Option ℕ)) (fd : ℕ) (bytes : List ℕ) (done : ℕ) (log : List Effect)
    → SendingWrites (writes log) (send_all results fd bytes done log)
unfolding send_all
send_all-SendingWrites [] fd bytes done log = tt
send_all-SendingWrites (none ∷ results) fd bytes done log = refl
send_all-SendingWrites (some n ∷ results) fd bytes done log =
    let chunk : List ℕ = take n (drop done bytes) in
    elim (Bool-cases (done + n == length bytes)) [
      | inl all ↦ rw all refl
      | inr more ↦
          rw more (send_all-SendingWrites results fd bytes (done + n) (sent fd chunk ∷ log))
    ]

writes-send_loop :
    (rounds : ℕ) (results : List (Option ℕ)) (bytes : List ℕ) (i : ℕ) (current : Option ClientNode)
    (s s' : Server)
    → send_loop rounds results bytes i current s ≡ some s'
    → writes s'.log ≡ writes s.log
unfolding send_loop
writes-send_loop zero results bytes i none s s' e = ap (λ t. writes t.log) (sym (some_injective e))
writes-send_loop (suc rounds) results bytes i none s s' e =
    ap (λ t. writes t.log) (sym (some_injective e))
writes-send_loop zero results bytes i (some node) s s' e = cc
writes-send_loop (suc rounds) results bytes i (some node) s s' e =
    let adds_nothing = send_all-SendingWrites results node.client bytes 0 s.log in
    elim (Sending-cases (send_all results node.client bytes 0 s.log)) [
      | inl p ↦ absurd (none-ne-some _ (sym (loop_pending rounds results bytes i node s p) ∙ e))
      | inr (inl (log, rest, p)) ↦
          writes-send_loop rounds rest bytes i _ _ s'
            (sym (loop_failed rounds results bytes i node s p) ∙ e)
          ∙ writes-terminate_client (some node) i (record s { log = log })
          ∙ subst (SendingWrites (writes s.log)) p adds_nothing
      | inr (inr (log, rest, p)) ↦
          writes-send_loop rounds rest bytes (i + 1) _ (record s { log = log }) s'
            (sym (loop_delivered rounds results bytes i node s p) ∙ e)
          ∙ subst (SendingWrites (writes s.log)) p adds_nothing
    ]

pub writes-send_data_to_clients :
    (received : Option (List ℕ)) (results : List (Option ℕ)) (s s' : Server)
    → send_data_to_clients received results s ≡ some s'
    → writes s'.log ≡ writes s.log
unfolding send_data_to_clients
writes-send_data_to_clients none results s s' e = ap (λ t. writes t.log) (sym (some_injective e))
writes-send_data_to_clients (some []) results s s' e =
    ap (λ t. writes t.log) (sym (some_injective e))
writes-send_data_to_clients (some (b ∷ bs)) results s s' e =
    writes-send_loop (length s.g_clients) results (b ∷ bs) 0 _ _ s' e
