-- ===== src/UartServer/Clients/Unresponsive.antt =====
-- How many failed calls of `recv` the commanding client is allowed.
use mathlib.Core.Path.{subst}
use native.Mathlib.Nat.{zero-add}
use uav_mission_server.Prelude.{
  ℕ, ◌+◌, ◌≤◌, ◌<◌, ◌≡◌, refl, sym, ap, ◌∙◌, arith, true, List, [], ◌∷◌, ◌++◌, Option, none, some,
  get_elem?,
}
use uav_mission_server.UartServer.State.{ClientNode, Server, Effect, closed}
use uav_mission_server.UartServer.Clients.{
  id_eq, terminate_client, unlink, handle_commanding_client, serve_head, recv_from, recv_failed,
  reset_tryout,
}
use uav_mission_server.UartServer.Clients.Invariant.{terminate_client_at, unlink_head}
use uav_mission_server.UartServer.Clients.Tries.{
  recv_all, fails, failures, writes, written, tries, Keeps, reset_tryout-Keeps,
}

serve_head_first :
    (c : ClientNode) (cs : List ClientNode) (r : Option (List ℕ)) (s : Server)
    → s.g_clients ≡ c ∷ cs
    → handle_commanding_client r s ≡ recv_from c r (reset_tryout s)
unfolding handle_commanding_client
serve_head_first c cs r s e = ap (λ l. serve_head l r s) e

recv_failed_again :
    (c : ClientNode) (s : Server)
    → s.tryout < 3
    → recv_failed c s ≡ record s { tryout = s.tryout + 1 }
recv_failed_again c s h = ground arith

recv_failed_last :
    (c : ClientNode) (s : Server)
    → s.tryout ≡ 3
    → recv_failed c s ≡ (terminate_client (some c) 0 (record s { tryout = s.tryout + 1 })).0
recv_failed_last c s h = ground arith

recv_failed-Keeps :
    (c : ClientNode) (cs : List ClientNode) (s : Server)
    → s.g_clients ≡ c ∷ cs
    → id_eq s.last_commander s.g_commanding_client ≡ true
    → s.tryout + 1 ≤ 3
    → Keeps c cs 1 s.log s (recv_failed c s)
recv_failed-Keeps c cs s e same h =
    rw (recv_failed_again c s (omega arith))
      (record { clients = e; commander = refl; polled = refl; tried = rw same refl; logged = refl })

recv_from-Keeps :
    (c : ClientNode) (cs : List ClientNode) (r : Option (List ℕ)) (s : Server)
    → s.g_clients ≡ c ∷ cs
    → id_eq s.last_commander s.g_commanding_client ≡ true
    → s.tryout + fails r ≤ 3
    → Keeps c cs (fails r) (writes c.id r s.log) s (recv_from c r s)
recv_from-Keeps c cs none s e same h = recv_failed-Keeps c cs s e same h
recv_from-Keeps c cs (some []) s e same h = recv_failed-Keeps c cs s e same h
recv_from-Keeps c cs (some (b ∷ bs)) s e same h = record {
  clients = e;
  commander = refl;
  polled = refl;
  tried = omega arith;
  logged = refl;
}

Keeps-trans :
    {c : ClientNode} {cs : List ClientNode} {m n : ℕ} {log log' : List Effect} {s t u : Server}
    → Keeps c cs m log s t
    → Keeps c cs n log' t u
    → Keeps c cs (m + n) log' s u
Keeps-trans a b = record {
  clients = b.clients;
  commander = b.commander ∙ a.commander;
  polled = b.polled ∙ a.polled;
  tried = omega (arith, a.tried, b.tried);
  logged = b.logged;
}

handle_commanding_client-Keeps :
    (c : ClientNode) (cs : List ClientNode) (r : Option (List ℕ)) (s : Server)
    → s.g_clients ≡ c ∷ cs
    → tries s + fails r ≤ 3
    → Keeps c cs (fails r) (writes c.id r s.log) s (handle_commanding_client r s)
handle_commanding_client-Keeps c cs r s e h =
    let (reset, count, same) = reset_tryout-Keeps c cs s e in
    let next = recv_from-Keeps c cs r (reset_tryout s) reset.clients same (omega (arith, count)) in
    subst (Keeps c cs (fails r) (writes c.id r s.log) s) (sym (serve_head_first c cs r s e)) (
      subst (λ log. Keeps c cs (fails r) log s (recv_from c r (reset_tryout s)))
        (ap (writes c.id r) reset.logged)
        (subst
          (λ n.
            Keeps c cs n (writes c.id r (reset_tryout s).log) s (recv_from c r (reset_tryout s)))
          (zero-add (fails r)) (Keeps-trans reset next)))

recv_all-Keeps :
    (c : ClientNode) (cs : List ClientNode) (rs : List (Option (List ℕ))) (s : Server)
    → s.g_clients ≡ c ∷ cs
    → tries s + failures rs ≤ 3
    → Keeps c cs (failures rs) (written c.id rs s.log) s (recv_all rs s)
recv_all-Keeps c cs [] s e h = record {
  clients = e;
  commander = refl;
  polled = refl;
  tried = omega arith;
  logged = refl;
}
recv_all-Keeps c cs (r ∷ rs) s e h =
    let first = handle_commanding_client-Keeps c cs r s e (omega arith) in
    let more =
      recv_all-Keeps c cs rs (handle_commanding_client r s) first.clients
        (omega (arith, first.tried)) in
    subst
      (λ log. Keeps c cs (fails r + failures rs) log s (recv_all rs (handle_commanding_client r s)))
      (ap (written c.id rs) first.logged) (Keeps-trans first more)

recv_all-append :
    (rs : List (Option (List ℕ))) (r : Option (List ℕ)) (s : Server)
    → recv_all (rs ++ r ∷ []) s ≡ handle_commanding_client r (recv_all rs s)
recv_all-append [] r s = refl
recv_all-append (q ∷ rs) r s = recv_all-append rs r (handle_commanding_client q s)

recv_from_failing :
    (c : ClientNode) (r : Option (List ℕ)) (s : Server)
    → fails r ≡ 1
    → recv_from c r s ≡ recv_failed c s
recv_from_failing c none s h = refl
recv_from_failing c (some []) s h = refl
recv_from_failing c (some (b ∷ bs)) s h = absurd (omega arith)

-- The fourth failure.
drops :
    (c : ClientNode) (cs : List ClientNode) (r : Option (List ℕ)) (s : Server)
    → s.g_clients ≡ c ∷ cs
    → tries s ≡ 3
    → fails r ≡ 1
    → ((handle_commanding_client r s).g_clients ≡ cs)
      × ((handle_commanding_client r s).log ≡ closed c.client ∷ s.log)
drops c cs r s e h f =
    let (reset, count, same) = reset_tryout-Keeps c cs s e in
    let s1 : Server = record (reset_tryout s) { tryout = (reset_tryout s).tryout + 1 } in
    let runs : handle_commanding_client r s ≡ unlink c 0 s1 =
      serve_head_first c cs r s e
      ∙ recv_from_failing c r (reset_tryout s) f
      ∙ recv_failed_last c (reset_tryout s) (count ∙ h)
      ∙ ap (λ p. p.0) (terminate_client_at c 0 s1 (ap (λ l. get_elem? l 0) reset.clients)) in
    let (rest, log) = unlink_head c cs s1 reset.clients in
    (
      ap (λ t. t.g_clients) runs ∙ rest,
      ap (λ t. t.log) runs ∙ log ∙ ap (λ l. closed c.client ∷ l) reset.logged,
    )

-- The client in command, new in command, stays connected through three failed calls of `recv`,
-- whatever is received between them, and what is received is written in its order; the fourth
-- failure, not only one in a row with the others, closes its connection and takes it out of the list.
pub recv_all_tryouts :
    (c : ClientNode) (cs : List ClientNode) (rs : List (Option (List ℕ))) (r : Option (List ℕ))
    (s : Server)
    → s.g_clients ≡ c ∷ cs
    → tries s ≡ 0
    → failures rs ≡ 3
    → fails r ≡ 1
    → ((recv_all rs s).g_clients ≡ c ∷ cs)
      × ((recv_all rs s).log ≡ written c.id rs s.log)
      × ((recv_all (rs ++ r ∷ []) s).g_clients ≡ cs)
      × ((recv_all (rs ++ r ∷ []) s).log ≡ closed c.client ∷ written c.id rs s.log)
recv_all_tryouts c cs rs r s e new three f =
    let kept = recv_all-Keeps c cs rs s e (omega arith) in
    let (rest, log) = drops c cs r (recv_all rs s) kept.clients (omega (arith, kept.tried)) f in
    let split = recv_all-append rs r s in
    (
      kept.clients,
      kept.logged,
      ap (λ t. t.g_clients) split ∙ rest,
      ap (λ t. t.log) split ∙ log ∙ ap (λ l. closed c.client ∷ l) kept.logged,
    )
