-- ===== src/UartServer/Clients/Heard.antt =====
-- What the handlers hand to `read_mavlink_msg`, read off the log.
use mathlib.Core.Path.{subst}
use mathlib.Core.List.{append-nil}
use uav_mission_server.Prelude.{
  ℕ, zero, suc, ◌+◌, ◌≡◌, refl, sym, ap, ◌∙◌, inl, inr, arith, Bool, List, [], ◌∷◌, ◌++◌, Option,
  none, some, some_injective, length, Bool-cases, ◌==◌, take, drop,
}
use mathlib.Core.Option.{none-ne-some}
use uav_mission_server.UartServer.State.{
  ClientNode, Server, Effect, sent, closed, wrote, parsed, tune,
}
use uav_mission_server.UartServer.Clients.{
  accept_client, Accepted, terminate_client, handle_commanding_client, serve_head, recv_from,
  recv_failed, reset_tryout, send_data_to_clients, send_all, send_loop, Sending, failed, delivered,
  pending,
}
use uav_mission_server.UartServer.Clients.Broadcast.{Sending-cases}
use uav_mission_server.UartServer.Clients.Writers.{loop_pending, loop_failed, loop_delivered}

-- The bytes handed over in a log, in their order.
abbrev pub heard : List Effect → List ℕ
heard [] = []
heard (parsed bytes ∷ log) = heard log ++ bytes
heard (sent fd bytes ∷ log) = heard log
heard (closed fd ∷ log) = heard log
heard (wrote id bytes ∷ log) = heard log
heard (tune n ∷ log) = heard log

-- What `serial_read` stored, nothing for an error.
abbrev pub stored : Option (List ℕ) → List ℕ
stored none = []
stored (some bytes) = bytes

pub heard-terminate_client :
    (node : Option ClientNode) (i : ℕ) (s : Server)
    → heard (terminate_client node i s).0.log ≡ heard s.log
unfolding terminate_client
heard-terminate_client none i s = refl
heard-terminate_client (some node) i s = ground arith

pub heard-accept_client :
    (allocated : Bool) (a : Accepted) (s : Server)
    → heard (accept_client allocated a s).0.log ≡ heard s.log
unfolding accept_client
heard-accept_client allocated a s = ground arith

heard-recv_failed : (head : ClientNode) (s : Server) → heard (recv_failed head s).log ≡ heard s.log
heard-recv_failed head s =
    ground (arith, heard-terminate_client (some head) 0 (record s { tryout = s.tryout + 1 }))

heard-recv_from :
    (head : ClientNode) (received : Option (List ℕ)) (s : Server)
    → heard (recv_from head received s).log ≡ heard s.log
heard-recv_from head none s = heard-recv_failed head s
heard-recv_from head (some []) s = heard-recv_failed head s
heard-recv_from head (some (b ∷ bs)) s = refl

heard-reset_tryout : (s : Server) → heard (reset_tryout s).log ≡ heard s.log
heard-reset_tryout s = ground arith

pub heard-handle_commanding_client :
    (received : Option (List ℕ)) (s : Server)
    → heard (handle_commanding_client received s).log ≡ heard s.log
unfolding handle_commanding_client
heard-handle_commanding_client received s = go s.g_clients
  where
    go : (cs : List ClientNode) → heard (serve_head cs received s).log ≡ heard s.log
    go [] = refl
    go (c ∷ cs) = heard-recv_from c received (reset_tryout s) ∙ heard-reset_tryout s

-- Sending adds nothing.
abbrev SendingHeard : List ℕ → Sending → Type 0
SendingHeard bytes pending = Unit
SendingHeard bytes (failed log rest) = heard log ≡ bytes
SendingHeard bytes (delivered log rest) = heard log ≡ bytes

send_all-SendingHeard :
    (results : List (Option ℕ)) (fd : ℕ) (bytes : List ℕ) (done : ℕ) (log : List Effect)
    → SendingHeard (heard log) (send_all results fd bytes done log)
unfolding send_all
send_all-SendingHeard [] fd bytes done log = tt
send_all-SendingHeard (none ∷ results) fd bytes done log = refl
send_all-SendingHeard (some n ∷ results) fd bytes done log =
    let chunk : List ℕ = take n (drop done bytes) in
    elim (Bool-cases (done + n == length bytes)) [
      | inl all ↦ rw all refl
      | inr more ↦ rw more (send_all-SendingHeard results fd bytes (done + n) (sent fd chunk ∷ log))
    ]

heard-send_loop :
    (rounds : ℕ) (results : List (Option ℕ)) (bytes : List ℕ) (i : ℕ) (current : Option ClientNode)
    (s s' : Server)
    → send_loop rounds results bytes i current s ≡ some s'
    → heard s'.log ≡ heard s.log
unfolding send_loop
heard-send_loop zero results bytes i none s s' e = ap (λ t. heard t.log) (sym (some_injective e))
heard-send_loop (suc rounds) results bytes i none s s' e =
    ap (λ t. heard t.log) (sym (some_injective e))
heard-send_loop zero results bytes i (some node) s s' e = cc
heard-send_loop (suc rounds) results bytes i (some node) s s' e =
    let adds_nothing = send_all-SendingHeard results node.client bytes 0 s.log in
    elim (Sending-cases (send_all results node.client bytes 0 s.log)) [
      | inl p ↦ absurd (none-ne-some _ (sym (loop_pending rounds results bytes i node s p) ∙ e))
      | inr (inl (log, rest, p)) ↦
          heard-send_loop rounds rest bytes i _ _ s'
            (sym (loop_failed rounds results bytes i node s p) ∙ e)
          ∙ heard-terminate_client (some node) i (record s { log = log })
          ∙ subst (SendingHeard (heard s.log)) p adds_nothing
      | inr (inr (log, rest, p)) ↦
          heard-send_loop rounds rest bytes (i + 1) _ (record s { log = log }) s'
            (sym (loop_delivered rounds results bytes i node s p) ∙ e)
          ∙ subst (SendingHeard (heard s.log)) p adds_nothing
    ]

pub heard-send_data_to_clients :
    (received : Option (List ℕ)) (results : List (Option ℕ)) (s s' : Server)
    → send_data_to_clients received results s ≡ some s'
    → heard s'.log ≡ heard s.log ++ stored received
unfolding send_data_to_clients
heard-send_data_to_clients none results s s' e =
    ap (λ t. heard t.log) (sym (some_injective e)) ∙ sym (append-nil _)
heard-send_data_to_clients (some []) results s s' e =
    ap (λ t. heard t.log) (sym (some_injective e)) ∙ sym (append-nil _)
heard-send_data_to_clients (some (b ∷ bs)) results s s' e =
    heard-send_loop (length s.g_clients) results (b ∷ bs) 0 _ _ s' e
