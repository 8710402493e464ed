-- ===== src/UartServer/Clients/Invariant.antt =====
-- What the handlers keep of the client list: ids rise along it, and the descriptor that the server
-- polls for commands is that of the commanding client, which is the head of the list, or none.
use uav_mission_server.Prelude.{
  ℕ, zero, suc, ◌+◌, ◌≤◌, ◌<◌, ◌≡◌, refl, ap, ◌∙◌, ◌⊎◌, inr, arith, Bool, List, [], ◌∷◌, ◌++◌,
  Option, none, some, get_elem?, if◌then◌else◌, ==_refl, true, false,
}
use uav_mission_server.UartServer.State.{ClientNode, Effect, wrote, closed, Server}
use uav_mission_server.UartServer.Clients.{
  Accepted, next_id, id_eq, remove_at, append_client, unlink, terminate_client, accept_client,
  accept_with, log_effect, reset_tryout, recv_failed, recv_from, serve_head,
  handle_commanding_client,
}

-- Ids rise strictly from `low` on and stay below `high`.
abbrev pub Ids : ℕ → ℕ → List ClientNode → Type 0
Ids low high [] = Unit {0}
Ids low high (c ∷ cs) = (low ≤ c.id) × (c.id < high) × Ids (suc c.id) high cs

-- The head commands and is polled, or the last commander is gone and nobody is polled.
abbrev pub Commanded : Option ℕ → Option ℕ → List ClientNode → Type 0
Commanded commander fd [] = fd ≡ none
Commanded commander fd (c ∷ cs) =
    ((commander ≡ some c.id) × (fd ≡ some c.client)) ⊎ ((next_id commander ≤ c.id) × (fd ≡ none))

pub record Inv (s : Server) : Type 0 where
  pub ids : Ids 0 (next_id s.g_last_id) s.g_clients
  pub known : next_id s.g_commanding_client ≤ next_id s.g_last_id
  pub commanded : Commanded s.g_commanding_client s.client_fd s.g_clients

Ids-lower :
    (low low' high : ℕ) (cs : List ClientNode) → low' ≤ low → Ids low high cs → Ids low' high cs
Ids-lower low low' high [] h v = tt
Ids-lower low low' high (c ∷ cs) h v = (omega arith, v.1, v.2)

Ids-raise :
    (low high high' : ℕ) (cs : List ClientNode) → high ≤ high' → Ids low high cs → Ids low high' cs
Ids-raise low high high' [] h v = tt
Ids-raise low high high' (c ∷ cs) h v = (v.0, omega arith, Ids-raise (suc c.id) high high' cs h v.2)

Ids-remove_at :
    (low high i : ℕ) (cs : List ClientNode) → Ids low high cs → Ids low high (remove_at i cs)
Ids-remove_at low high i [] v = tt
Ids-remove_at low high zero (c ∷ cs) v = Ids-lower (suc c.id) low high cs (omega arith) v.2
Ids-remove_at low high (suc i) (c ∷ cs) v = (v.0, v.1, Ids-remove_at (suc c.id) high i cs v.2)

Ids-get_elem? :
    (low high i : ℕ) (cs : List ClientNode) (c : ClientNode)
    → Ids low high cs
    → get_elem? cs i ≡ some c
    → (low ≤ c.id) × (c.id < high)
Ids-get_elem? low high i [] c v e = cc
Ids-get_elem? low high zero (d ∷ cs) c v e = ground arith
Ids-get_elem? low high (suc i) (d ∷ cs) c v e =
    omega (arith, Ids-get_elem? (suc d.id) high i cs c v.2 e)

-- Taking the node at link `i` out keeps the invariant.
Commanded-remove :
    (commander fd : Option ℕ) (low high i : ℕ) (cs : List ClientNode) (c : ClientNode)
    → Ids low high cs
    → get_elem? cs i ≡ some c
    → Commanded commander fd cs
    → Commanded commander (if id_eq (some c.id) commander then none else fd) (remove_at i cs)
Commanded-remove commander fd low high i [] c v e h = cc
Commanded-remove commander fd low high zero (d ∷ []) c v e h = ground arith
Commanded-remove commander fd low high zero (d ∷ d' ∷ cs) c v e h = ground arith
Commanded-remove commander fd low high (suc i) (d ∷ cs) c v e h =
    ground (arith, Ids-get_elem? (suc d.id) high i cs c v.2 e)

pub unlink-Inv :
    (node : ClientNode) (i : ℕ) (s : Server)
    → get_elem? s.g_clients i ≡ some node
    → Inv s
    → Inv (unlink node i s)
unfolding unlink
unlink-Inv node i s e v = record {
  ids = Ids-remove_at 0 (next_id s.g_last_id) i s.g_clients v.ids;
  known = v.known;
  commanded =
      Commanded-remove s.g_commanding_client s.client_fd 0 (next_id s.g_last_id) i s.g_clients node
        v.ids e v.commanded;
}

-- Ids tell the nodes of a list apart.
Ids-unique :
    (low high i j : ℕ) (cs : List ClientNode) (c d : ClientNode)
    → Ids low high cs
    → get_elem? cs i ≡ some c
    → get_elem? cs j ≡ some d
    → c.id ≡ d.id
    → i ≡ j
Ids-unique low high i j [] c d v ec ed e = cc
Ids-unique low high zero zero (x ∷ cs) c d v ec ed e = refl
Ids-unique low high zero (suc j) (x ∷ cs) c d v ec ed e =
    absurd (ground (arith, Ids-get_elem? (suc x.id) high j cs d v.2 ed))
Ids-unique low high (suc i) zero (x ∷ cs) c d v ec ed e =
    absurd (ground (arith, Ids-get_elem? (suc x.id) high i cs c v.2 ec))
Ids-unique low high (suc i) (suc j) (x ∷ cs) c d v ec ed e =
    ap suc (Ids-unique (suc x.id) high i j cs c d v.2 ec ed e)

-- At the link of a node of the list `terminate_client` takes that node out, and returns the next.
pub terminate_client_at :
    (node : ClientNode) (i : ℕ) (s : Server)
    → get_elem? s.g_clients i ≡ some node
    → terminate_client (some node) i s ≡ (unlink node i s, get_elem? (unlink node i s).g_clients i)
unfolding terminate_client unlink
terminate_client_at node i s e = rw (e, terminate_client) (rw (==_refl node.id))

-- `terminate_client` keeps the invariant, whatever node and link it is given that
-- stand for each other.
pub terminate_client-Inv :
    (node : Option ClientNode) (i : ℕ) (s : Server)
    → get_elem? s.g_clients i ≡ node
    → Inv s
    → Inv (terminate_client node i s).0
terminate_client-Inv none i s e v = unfold terminate_client in v
terminate_client-Inv (some node) i s e v =
    rw (terminate_client_at node i s e) (unlink-Inv node i s e v)

pub unlink_head :
    (c : ClientNode) (cs : List ClientNode) (s : Server)
    → s.g_clients ≡ c ∷ cs
    → ((unlink c 0 s).g_clients ≡ cs) × ((unlink c 0 s).log ≡ closed c.client ∷ s.log)
unfolding unlink
unlink_head c cs s p = (rw p, refl)

Ids-append :
    (low high : ℕ) (cs : List ClientNode) (c : ClientNode)
    → low ≤ high
    → c.id ≡ high
    → Ids low high cs
    → Ids low (suc high) (cs ++ c ∷ [])
Ids-append low high [] c h e v = omega arith
Ids-append low high (d ∷ cs) c h e v =
    (v.0, omega arith, Ids-append (suc d.id) high cs c (omega arith) e v.2)

Commanded-append :
    (commander fd : Option ℕ) (high : ℕ) (cs : List ClientNode) (c : ClientNode)
    → next_id commander ≤ high
    → c.id ≡ high
    → Commanded commander fd cs
    → Commanded commander fd (cs ++ c ∷ [])
Commanded-append commander fd high [] c h e v = inr (omega arith, v)
Commanded-append commander fd high (d ∷ cs) c h e v = v

append_client-Inv : (fd : ℕ) (a : Accepted) (s : Server) → Inv s → Inv (append_client fd a s)
append_client-Inv fd a s v = record {
  ids = Ids-append 0 (next_id s.g_last_id) s.g_clients _ (omega arith) refl v.ids;
  known = omega (arith, v.known);
  commanded =
      Commanded-append s.g_commanding_client s.client_fd (next_id s.g_last_id) s.g_clients _ v.known
        refl v.commanded;
}

accept_with-Inv :
    (socket : Option ℕ) (a : Accepted) (s : Server) → Inv s → Inv (accept_with socket a s).0
unfolding accept_with
accept_with-Inv none a s v = v
accept_with-Inv (some fd) a s v = ground (arith, append_client-Inv fd a s v)

-- `accept_client` keeps the invariant on every branch.
pub accept_client-Inv :
    (allocated : Bool) (a : Accepted) (s : Server) → Inv s → Inv (accept_client allocated a s).0
unfolding accept_client
accept_client-Inv false a s v = v
accept_client-Inv true a s v = accept_with-Inv a.socket a s v

pub log-Inv : (e : Effect) (s : Server) → Inv s → Inv (log_effect e s)
log-Inv e s v = record { ids = v.ids; known = v.known; commanded = v.commanded }

reset_tryout-Inv : (s : Server) → Inv s → Inv (reset_tryout s)
reset_tryout-Inv s v = ground arith

recv_failed-Inv :
    (head : ClientNode) (tail : List ClientNode) (s : Server)
    → s.g_clients ≡ head ∷ tail
    → Inv s
    → Inv (recv_failed head s)
recv_failed-Inv head tail s e v =
    ground (arith, terminate_client-Inv (some head) 0 (record s { tryout = s.tryout + 1 }))

reset_tryout_clients : (s : Server) → (reset_tryout s).g_clients ≡ s.g_clients
reset_tryout_clients s = ground arith

recv_from-Inv :
    (head : ClientNode) (tail : List ClientNode) (received : Option (List ℕ)) (s : Server)
    → s.g_clients ≡ head ∷ tail
    → Inv s
    → Inv (recv_from head received s)
recv_from-Inv head tail none s e v = recv_failed-Inv head tail s e v
recv_from-Inv head tail (some []) s e v = recv_failed-Inv head tail s e v
recv_from-Inv head tail (some (b ∷ bs)) s e v = log-Inv (wrote head.id (b ∷ bs)) s v

serve_head-Inv :
    (cs : List ClientNode) (received : Option (List ℕ)) (s : Server)
    → s.g_clients ≡ cs
    → Inv s
    → Inv (serve_head cs received s)
serve_head-Inv [] received s e v = v
serve_head-Inv (head ∷ tail) received s e v =
    recv_from-Inv head tail received (reset_tryout s) (reset_tryout_clients s ∙ e)
      (reset_tryout-Inv s v)

-- `handle_commanding_client` keeps the invariant, also when it drops the client.
pub handle_commanding_client-Inv :
    (received : Option (List ℕ)) (s : Server) → Inv s → Inv (handle_commanding_client received s)
unfolding handle_commanding_client
handle_commanding_client-Inv received s v = serve_head-Inv s.g_clients received s refl v
