-- ===== src/UartServer/Clients/Returns.antt =====
-- `send_data_to_clients` returns, and what it has done then.
use uav_mission_server.Prelude.{
  ℕ, zero, suc, ◌+◌, ◌*◌, ◌≤◌, ◌<◌, ◌≡◌, refl, sym, ap, ◌∙◌, arith, false, List, [], ◌∷◌, Option,
  none, some, some_injective, length, ◌==◌, Bool-cases, inl, inr, get_elem?,
}
use mathlib.Core.Path.{subst}
use mathlib.Core.Option.{none-ne-some}
use uav_mission_server.UartServer.State.{ClientNode, Effect, closed, parsed, Server}
use uav_mission_server.UartServer.Clients.{
  Sending, failed, delivered, pending, send_all, send_loop, send_data_to_clients, unlink,
  log_effect,
}
use uav_mission_server.UartServer.Clients.Invariant.{Inv, unlink-Inv, terminate_client_at, log-Inv}
use uav_mission_server.UartServer.Clients.Broadcast.{
  broadcast, broadcast-failed, broadcast-delivered, keep, Sending-cases, Agrees,
  send_loop-broadcast,
}
use uav_mission_server.UartServer.Clients.Delivered.{Honest, Honest-next, Leaves, send_all-Leaves}
use uav_mission_server.UartServer.Clients.Served.{Distinct, Served, broadcast-Served}

-- The calls for one client come to an end, and use up one result for each byte at most.
Ends : ℕ → Sending → Type 0
Ends n pending = ⊥
Ends n (failed log rest) = n ≤ length rest
Ends n (delivered log rest) = n ≤ length rest

send_all-Ends :
    (results : List (Option ℕ)) (fd : ℕ) (bytes : List ℕ) (done n : ℕ) (log : List Effect)
    → Honest (length bytes) done results
    → done < length bytes
    → n + length bytes ≤ done + length results
    → Ends n (send_all results fd bytes done log)
unfolding send_all Ends
send_all-Ends [] fd bytes done n log h lt enough = omega arith
send_all-Ends (none ∷ results) fd bytes done n log h lt enough = omega arith
send_all-Ends (some k ∷ results) fd bytes done n log h lt enough =
    elim (Bool-cases (done + k == length bytes)) [
      | inl all ↦ rw all (omega arith)
      | inr more ↦ rw more (
          send_all-Ends results fd bytes (done + k) n _
            (Honest-next (length bytes) done k results h false more) (ground arith) (omega arith))
    ]

-- With a result for each byte and client, the walk over the clients ends.
broadcast_returns :
    (cs : List ClientNode) (results : List (Option ℕ)) (bytes : List ℕ) (log : List Effect)
    → Honest (length bytes) 0 results
    → 0 < length bytes
    → length cs * length bytes ≤ length results
    → (r : List ClientNode × List Effect) × (broadcast results bytes cs log ≡ some r)
unfolding broadcast Ends
broadcast_returns [] results bytes log h pos enough = (([], log), refl)
broadcast_returns (c ∷ cs) results bytes log h pos enough =
    let ends =
      send_all-Ends results c.client bytes 0 (length cs * length bytes) log h pos (omega arith) in
    let leaves = send_all-Leaves results c.client bytes 0 log h in
    elim (Sending-cases (send_all results c.client bytes 0 log)) [
      | inl p ↦ absurd (subst (Ends (length cs * length bytes)) p ends)
      | inr (inl (log1, rest, p)) ↦
          (let left = subst (Leaves (length bytes) c.client log) p leaves in
            let (r, on) =
              broadcast_returns cs rest bytes (closed c.client ∷ log1) left.0 pos
                (subst (Ends (length cs * length bytes)) p ends) in
            (r, broadcast-failed results bytes c cs log p ∙ on))
      | inr (inr (log1, rest, p)) ↦
          (let left = subst (Leaves (length bytes) c.client log) p leaves in
            let (r, on) =
              broadcast_returns cs rest bytes log1 left.0 pos
                (subst (Ends (length cs * length bytes)) p ends) in
            ((c ∷ r.0, r.1), broadcast-delivered results bytes c cs log p ∙ ap (keep c) on))
    ]

Agrees-returns :
    (s : Server) (x : Option Server) (stay : List ClientNode) (log : List Effect)
    → Agrees [] s x (some (stay, log))
    → (s' : Server) × (x ≡ some s')
      × (s'.g_clients ≡ stay)
      × (s'.log ≡ log)
      × (s'.g_last_id ≡ s.g_last_id)
      × (s'.g_commanding_client ≡ s.g_commanding_client)
Agrees-returns s none stay log h = absurd h
Agrees-returns s (some s') stay log h = (s', refl, h.0, h.1, h.2, h.3)

-- When bytes were read from the serial port, `send` keeps its contract and gives a result for each
-- byte and client, and no two clients share a socket, then `send_data_to_clients` returns. Each
-- client stays and has been sent those bytes, all of them, once and in order, or it has left the
-- list and its socket is closed; those who stay keep their order; and no id is given out and no
-- other client takes command.
pub send_data_to_clients_serves :
    (b : ℕ) (bs : List ℕ) (results : List (Option ℕ)) (s : Server)
    → Honest (length (b ∷ bs)) 0 results
    → length s.g_clients * length (b ∷ bs) ≤ length results
    → Distinct s.g_clients
    → (s' : Server) × (send_data_to_clients (some (b ∷ bs)) results s ≡ some s')
      × Served (b ∷ bs) (parsed (b ∷ bs) ∷ s.log) s'.log s.g_clients s'.g_clients
      × (s'.g_last_id ≡ s.g_last_id)
      × (s'.g_commanding_client ≡ s.g_commanding_client)
unfolding send_data_to_clients
send_data_to_clients_serves b bs results s h enough d =
    let start : Server = log_effect (parsed (b ∷ bs)) s in
    let (r, on) = broadcast_returns s.g_clients results (b ∷ bs) start.log h (omega arith) enough in
    let walk = send_loop-broadcast s.g_clients results (b ∷ bs) [] start refl in
    let (s', returns, clients, log, last, commander) =
      Agrees-returns start _ r.0 r.1 (subst (Agrees [] start _) on walk) in
    let served = broadcast-Served s.g_clients results (b ∷ bs) start.log r.1 r.0 h d on in
    (
      s',
      returns,
      subst (λ l. Served (b ∷ bs) start.log l s.g_clients s'.g_clients) (sym log)
          (subst (Served (b ∷ bs) start.log r.1 s.g_clients) (sym clients) served),
      last,
      commander,
    )

module _ (rounds : ℕ) (results : List (Option ℕ)) (bytes : List ℕ) (i : ℕ) (node : ClientNode)
    (s : Server) where
  send_loop-pending :
      send_all results node.client bytes 0 s.log ≡ pending
      → send_loop (suc rounds) results bytes i (some node) s ≡ none
  unfolding send_loop
  send_loop-pending p = rw (p, send_loop)

  send_loop-failed :
      {log : List Effect} {rest : List (Option ℕ)}
      → send_all results node.client bytes 0 s.log ≡ failed log rest
      → get_elem? s.g_clients i ≡ some node
      → let s1 = unlink node i (record s { log = log }) in
        send_loop (suc rounds) results bytes i (some node) s
        ≡ send_loop rounds rest bytes i (get_elem? s1.g_clients i) s1
  unfolding send_loop
  send_loop-failed {log} {rest} p e =
      rw (p, send_loop)
        (ap (λ (r : Server × Option ClientNode). send_loop rounds rest bytes i r.1 r.0)
          (terminate_client_at node i (record s { log = log }) e))

  send_loop-delivered :
      {log : List Effect} {rest : List (Option ℕ)}
      → send_all results node.client bytes 0 s.log ≡ delivered log rest
      → send_loop (suc rounds) results bytes i (some node) s
        ≡ send_loop rounds rest bytes
            (i + 1)
            (get_elem? s.g_clients (i + 1))
            (record s { log = log })
  unfolding send_loop
  send_loop-delivered p = rw (p, send_loop)

with_log-Inv : (log : List Effect) (s : Server) → Inv s → Inv (record s { log = log })
with_log-Inv log s v = record { ids = v.ids; known = v.known; commanded = v.commanded }

send_loop-Inv :
    (rounds : ℕ) (results : List (Option ℕ)) (bytes : List ℕ) (i : ℕ) (current : Option ClientNode)
    (s s' : Server)
    → get_elem? s.g_clients i ≡ current
    → send_loop rounds results bytes i current s ≡ some s'
    → Inv s
    → Inv s'
unfolding send_loop
send_loop-Inv zero results bytes i none s s' e r v = subst Inv (some_injective r) v
send_loop-Inv (suc rounds) results bytes i none s s' e r v = subst Inv (some_injective r) v
send_loop-Inv zero results bytes i (some node) s s' e r v = cc
send_loop-Inv (suc rounds) results bytes i (some node) s s' e r v =
    elim (Sending-cases (send_all results node.client bytes 0 s.log)) [
      | inl p ↦
          absurd (none-ne-some _ (sym (send_loop-pending rounds results bytes i node s p) ∙ r))
      | inr (inl (log, rest, p)) ↦
          send_loop-Inv rounds rest bytes i _ (unlink node i (record s { log = log })) s' refl
            (sym (send_loop-failed rounds results bytes i node s p e) ∙ r)
            (unlink-Inv node i (record s { log = log }) e (with_log-Inv log s v))
      | inr (inr (log, rest, p)) ↦
          send_loop-Inv rounds rest bytes (i + 1) _ (record s { log = log }) s' refl
            (sym (send_loop-delivered rounds results bytes i node s p) ∙ r) (with_log-Inv log s v)
    ]

-- Whatever `serial_read` and `send` give, `send_data_to_clients` keeps the invariant when it returns.
pub send_data_to_clients-Inv :
    (received : Option (List ℕ)) (results : List (Option ℕ)) (s s' : Server)
    → send_data_to_clients received results s ≡ some s'
    → Inv s
    → Inv s'
unfolding send_data_to_clients
send_data_to_clients-Inv none results s s' r v = subst Inv (some_injective r) v
send_data_to_clients-Inv (some []) results s s' r v = subst Inv (some_injective r) v
send_data_to_clients-Inv (some (b ∷ bs)) results s s' r v =
    send_loop-Inv (length s.g_clients) results (b ∷ bs) 0 _ (log_effect (parsed (b ∷ bs)) s) s' refl
      r (log-Inv (parsed (b ∷ bs)) s v)
