-- ===== src/UartServer/Loop/ShutDown.antt =====
-- The shutdown behind the main loop: every client is disconnected.
use uav_mission_server.Prelude.{
  ℕ, suc, ◌≡◌, refl, sym, ap, ◌∙◌, inl, inr, Bool, List, [], ◌∷◌, ◌++◌, some, length, get_elem?,
}
use uav_mission_server.UartServer.State.{ClientNode, Server, Effect, closed}
use uav_mission_server.UartServer.Clients.{terminate_client, unlink}
use uav_mission_server.UartServer.Clients.Invariant.{terminate_client_at, unlink_head}
use uav_mission_server.UartServer.Loop.{Inputs, next, leave, round, serve, shut_down}
use uav_mission_server.UartServer.Loop.Runs.{
  Round-cases, serve_none, serve_next, serve_leave, serve_lost, next_leave, lost_leave,
  leave_injective,
}

-- The log after the clients are closed in the order of the list.
abbrev pub close_all : List ClientNode → List Effect → List Effect
close_all [] log = log
close_all (c ∷ cs) log = close_all cs (closed c.client ∷ log)

open_head :
    (n : ℕ) (c : ClientNode) (s : Server)
    → get_elem? s.g_clients 0 ≡ some c
    → shut_down (suc n) s ≡ shut_down n (terminate_client (some c) 0 s).0
unfolding shut_down
open_head n c s head = rw (head, shut_down)

shut_down_step :
    (n : ℕ) (c : ClientNode) (cs : List ClientNode) (s : Server)
    → s.g_clients ≡ c ∷ cs
    → shut_down (suc n) s ≡ shut_down n (unlink c 0 s)
shut_down_step n c cs s e =
    let head : get_elem? s.g_clients 0 ≡ some c = ap (λ l. get_elem? l 0) e in
    open_head n c s head ∙ ap (λ r. shut_down n r.0) (terminate_client_at c 0 s head)

shut_down_all :
    (cs : List ClientNode) (s : Server)
    → s.g_clients ≡ cs
    → ((shut_down (length cs) s).g_clients ≡ [])
      × ((shut_down (length cs) s).log ≡ close_all cs s.log)
unfolding shut_down
shut_down_all [] s e = (e, refl)
shut_down_all (c ∷ cs) s e =
    let (rest, logged) = unlink_head c cs s e in
    let (gone, log) = shut_down_all cs (unlink c 0 s) rest in
    let step = shut_down_step (length cs) c cs s e in
    (ap (λ r. r.g_clients) step ∙ gone, ap (λ r. r.log) step ∙ log ∙ ap (close_all cs) logged)

-- A run that leaves the loop, on a request to shut down or on a failure of `poll`: of its rounds some go
-- on and the next one leaves, in a state `t`; behind it every client that is connected in `t` is closed,
-- in the order of the list, until none is left, and no later round is run.
pub serve_leaves :
    (is : List Inputs) (s s' : Server) (status : Bool)
    → serve is s ≡ leave status s'
    → (t : Server) × (s'.g_clients ≡ [])
      × (s'.log ≡ close_all t.g_clients t.log)
      × (before : List Inputs) × (i : Inputs) × (rest : List Inputs) × (u : Server) × (is
          ≡ before ++ i ∷ rest)
      × (serve before s ≡ next u)
      × (round i u ≡ leave status t)
serve_leaves [] s s' status e = absurd (next_leave (sym (serve_none s) ∙ e))
serve_leaves (i ∷ is) s s' status e = elim (Round-cases (round i s)) [
  | inl (t, p) ↦
      (let (u, gone, log, before, j, rest, v, split, ran, left) =
          serve_leaves is t s' status (sym (serve_next i is s t p) ∙ e) in
        (
          u,
          gone,
          log,
          i ∷ before,
          j,
          rest,
          v,
          ap (λ l. i ∷ l) split,
          serve_next i before s t p ∙ ran,
          left,
        ))
  | inr (inl (b, t, p)) ↦
      (let (code, after) = leave_injective (sym (serve_leave i is s b t p) ∙ e) in
        let (gone, log) = shut_down_all t.g_clients t refl in
        (
          t,
          ap (λ r. r.g_clients) (sym after) ∙ gone,
          ap (λ r. r.log) (sym after) ∙ log,
          [],
          i,
          is,
          s,
          refl,
          serve_none s,
          p ∙ ap (λ d. leave d t) code,
        ))
  | inr (inr p) ↦ absurd (lost_leave (sym (serve_lost i is s p) ∙ e))
]
