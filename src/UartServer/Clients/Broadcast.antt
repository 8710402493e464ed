-- ===== src/UartServer/Clients/Broadcast.antt =====
-- `send_data_to_clients` walks the list by a pointer to the link of the current node, which it
-- changes while nodes leave the list. Here the walk is matched with a plain recursion on the list.
use uav_mission_server.Prelude.{
  ℕ, suc, ◌+◌, ◌≡◌, refl, sym, ap, ap₂, ◌∙◌, arith, List, [], ◌∷◌, ◌++◌, Option, none, some, length,
  length-append, get_elem?, ◌⊎◌, inl, inr,
}
use mathlib.Core.List.{append_assoc}
use uav_mission_server.UartServer.State.{ClientNode, Effect, closed, Server}
use uav_mission_server.UartServer.Clients.{
  Sending, failed, delivered, pending, send_all, send_loop, remove_at, unlink, terminate_client,
}
use uav_mission_server.UartServer.Clients.Invariant.{terminate_client_at}

abbrev pub keep :
    ClientNode → Option (List ClientNode × List Effect) → Option (List ClientNode × List Effect)
keep c none = none
keep c (some (stay, log)) = some (c ∷ stay, log)

-- Who stays, and the log, when each client of the list is served in turn.
unfoldable pub broadcast :
    List (Option ℕ)
    → List ℕ
    → List ClientNode
    → List Effect
    → Option (List ClientNode × List Effect)
broadcast results bytes [] log = some ([], log)
broadcast results bytes (c ∷ cs) log = elim (send_all results c.client bytes 0 log) [
  | pending ↦ none
  | failed log' rest ↦ broadcast rest bytes cs (closed c.client ∷ log')
  | delivered log' rest ↦ keep c (broadcast rest bytes cs log')
]

module _ (results : List (Option ℕ)) (bytes : List ℕ) (c : ClientNode) (cs : List ClientNode)
    (log : List Effect) where
  pub broadcast-pending :
      send_all results c.client bytes 0 log ≡ pending → broadcast results bytes (c ∷ cs) log ≡ none
  unfolding broadcast
  broadcast-pending p = rw (p, broadcast)

  pub broadcast-failed :
      {log1 : List Effect} {rest : List (Option ℕ)}
      → send_all results c.client bytes 0 log ≡ failed log1 rest
      → broadcast results bytes (c ∷ cs) log ≡ broadcast rest bytes cs (closed c.client ∷ log1)
  unfolding broadcast
  broadcast-failed p = rw (p, broadcast)

  pub broadcast-delivered :
      {log1 : List Effect} {rest : List (Option ℕ)}
      → send_all results c.client bytes 0 log ≡ delivered log1 rest
      → broadcast results bytes (c ∷ cs) log ≡ keep c (broadcast rest bytes cs log1)
  unfolding broadcast
  broadcast-delivered p = rw (p, broadcast)

-- The two end alike: neither returns, or the list is `front` and then those who stay, the log is the
-- same, and the ids given out and in command are as before.
abbrev pub Agrees :
    List ClientNode → Server → Option Server → Option (List ClientNode × List Effect) → Type 0
Agrees front s none none = Unit
Agrees front s none (some r) = ⊥
Agrees front s (some s') none = ⊥
Agrees front s (some s') (some (stay, log)) =
    (s'.g_clients ≡ front ++ stay)
    × (s'.log ≡ log)
    × (s'.g_last_id ≡ s.g_last_id)
    × (s'.g_commanding_client ≡ s.g_commanding_client)

Agrees-keep :
    (front : List ClientNode) (c : ClientNode) (s : Server) (r : Option Server)
    (b : Option (List ClientNode × List Effect))
    → Agrees (front ++ c ∷ []) s r b
    → Agrees front s r (keep c b)
Agrees-keep front c s none none h = h
Agrees-keep front c s none (some r) h = h
Agrees-keep front c s (some s') none h = h
Agrees-keep front c s (some s') (some (stay, log)) h =
    (h.0 ∙ append_assoc front (c ∷ []) stay, h.1, h.2, h.3)

get_elem?-front :
    (front cs : List ClientNode) → get_elem? (front ++ cs) (length front) ≡ get_elem? cs 0
get_elem?-front [] cs = refl
get_elem?-front (f ∷ front) cs = get_elem?-front front cs

remove_at-front :
    (front : List ClientNode) (c : ClientNode) (cs : List ClientNode)
    → remove_at (length front) (front ++ c ∷ cs) ≡ front ++ cs
remove_at-front [] c cs = refl
remove_at-front (f ∷ front) c cs = ap (◌∷◌ f) (remove_at-front front c cs)

-- The node behind the link after the current one.
get_elem?-next :
    (front : List ClientNode) (c : ClientNode) (cs : List ClientNode)
    → get_elem? (front ++ c ∷ cs) (length front + 1) ≡ get_elem? cs 0
get_elem?-next [] c cs = refl
get_elem?-next (f ∷ front) c cs =
    let behind : suc (length front) + 1 ≡ suc (length front + 1) = omega arith in
    ap (get_elem? (f ∷ front ++ c ∷ cs)) behind ∙ get_elem?-next front c cs

pub Sending-cases :
    (x : Sending)
    → (x ≡ pending)
      ⊎ ((log : List Effect) × (rest : List (Option ℕ)) × (x ≡ failed log rest))
      ⊎ ((log : List Effect) × (rest : List (Option ℕ)) × (x ≡ delivered log rest))
Sending-cases pending = inl refl
Sending-cases (failed log rest) = inr (inl (log, rest, refl))
Sending-cases (delivered log rest) = inr (inr (log, rest, refl))

module _ (rounds : ℕ) (rest : List (Option ℕ)) (bytes : List ℕ) (front : List ClientNode)
    (c : ClientNode) (cs : List ClientNode) (s : Server) (e : s.g_clients ≡ front ++ c ∷ cs) where
  -- The round goes on at the same link after a failure, where the next node stands now.
  after_failure :
      (log : List Effect)
      → let s' = unlink c (length front) (record s { log = log }) in
        (send_loop rounds rest bytes
            (length front)
            (terminate_client (some c) (length front) (record s { log = log })).1
            (terminate_client (some c) (length front) (record s { log = log })).0
          ≡ send_loop rounds rest bytes (length front) (get_elem? cs 0) s')
        × (s'.g_clients ≡ front ++ cs)
  unfolding unlink
  after_failure log =
      let here : get_elem? s.g_clients (length front) ≡ some c =
        ap (λ l. get_elem? l (length front)) e ∙ get_elem?-front front (c ∷ cs) in
      let gone : remove_at (length front) s.g_clients ≡ front ++ cs =
        ap (remove_at (length front)) e ∙ remove_at-front front c cs in
      let s' : Server = unlink c (length front) (record s { log = log }) in
      let next : get_elem? (remove_at (length front) s.g_clients) (length front) ≡ get_elem? cs 0 =
        ap (λ l. get_elem? l (length front)) gone ∙ get_elem?-front front cs in
      (
        ap (λ (r : Server × Option ClientNode). send_loop rounds rest bytes (length front) r.1 r.0)
              (terminate_client_at c (length front) (record s { log = log }) here)
            ∙ ap (λ n. send_loop rounds rest bytes (length front) n s') next,
        gone,
      )

  -- And at the next link after a delivery.
  after_delivery :
      (log : List Effect)
      → let s' = record s { log = log } in
        (send_loop rounds rest bytes
            (length front + 1)
            (get_elem? s.g_clients (length front + 1))
            s'
          ≡ send_loop rounds rest bytes (length (front ++ c ∷ [])) (get_elem? cs 0) s')
        × (s.g_clients ≡ (front ++ c ∷ []) ++ cs)
  after_delivery log =
      let behind : length front + 1 ≡ length (front ++ c ∷ []) =
        omega (arith, length-append {0} front (c ∷ [])) in
      let next : get_elem? s.g_clients (length front + 1) ≡ get_elem? cs 0 =
        ap (λ l. get_elem? l (length front + 1)) e ∙ get_elem?-next front c cs in
      (
        ap₂ (λ i n. send_loop rounds rest bytes i n (record s { log = log })) behind next,
        e ∙ sym (append_assoc front (c ∷ []) cs),
      )

-- The walk over the links from the end of `front` on serves the clients behind it in turn, and is
-- over after as many rounds as there are of them.
pub send_loop-broadcast :
    (cs : List ClientNode) (results : List (Option ℕ)) (bytes : List ℕ) (front : List ClientNode)
    (s : Server)
    → s.g_clients ≡ front ++ cs
    → Agrees front s
        (send_loop (length cs) results bytes (length front) (get_elem? cs 0) s)
        (broadcast results bytes cs s.log)
unfolding send_loop broadcast unlink
send_loop-broadcast [] results bytes front s e = (e, refl, refl, refl)
send_loop-broadcast (c ∷ cs) results bytes front s e =
    elim (Sending-cases (send_all results c.client bytes 0 s.log)) [
      | inl p ↦ rw (p, send_loop, broadcast) tt
      | inr (inl (log, rest, p)) ↦
          (let (same, gone) = after_failure (length cs) rest bytes front c cs s e log in
            rw (p, send_loop, broadcast, same)
              (send_loop-broadcast cs rest bytes front
                (unlink c (length front) (record s { log = log })) gone))
      | inr (inr (log, rest, p)) ↦
          (let (same, split) = after_delivery (length cs) rest bytes front c cs s e log in
            rw (p, send_loop, broadcast, same)
              (Agrees-keep front c s _ _ (
                send_loop-broadcast cs rest bytes (front ++ c ∷ []) (record s { log = log })
                  split)))
    ]
