-- ===== src/UartServer/Clients/Served.antt =====
-- Every client of the list after `send_data_to_clients`: it stays and has been sent just the bytes
-- that were read, or it is gone and its socket closed.
use mathlib.Core.Path.{subst}
use mathlib.Core.Option.{none-ne-some}
use uav_mission_server.Prelude.{
  ℕ, ◌≡◌, ◌≢◌, sym, ap, ◌∙◌, arith, true, List, [], ◌∷◌, ◌++◌, Option, none, some, length, ==_refl,
  ◌⊎◌, inl, inr,
}
use uav_mission_server.UartServer.State.{ClientNode, Effect, closed}
use uav_mission_server.UartServer.Clients.{send_all}
use uav_mission_server.UartServer.Clients.Broadcast.{
  broadcast, broadcast-pending, broadcast-failed, broadcast-delivered, keep, Sending-cases,
}
use uav_mission_server.UartServer.Clients.Delivered.{
  Honest, sent_to, is_closed, Leaves, send_all-Leaves, send_all_delivers,
}

-- No client of the list has this socket.
abbrev pub NotIn : ℕ → List ClientNode → Type 0
NotIn fd [] = Unit {0}
NotIn fd (c ∷ cs) = (c.client ≢ fd) × NotIn fd cs

abbrev pub Distinct : List ClientNode → Type 0
Distinct [] = Unit {0}
Distinct (c ∷ cs) = NotIn c.client cs × Distinct cs

-- `stay` are those of the list that stay; the log went from `log` to `log'`.
abbrev pub Served : List ℕ → List Effect → List Effect → List ClientNode → List ClientNode → Type 0
Served bytes log log' [] stay = stay ≡ []
Served bytes log log' (c ∷ cs) stay =
    ((rest : List ClientNode) × (stay ≡ c ∷ rest)
      × (sent_to c.client log' ≡ sent_to c.client log ++ bytes)
      × Served bytes log log' cs rest)
    ⊎ ((is_closed c.client log' ≡ true) × Served bytes log log' cs stay)

Served-from :
    (bytes : List ℕ) (fd : ℕ) (log log1 log' : List Effect) (cs stay : List ClientNode)
    → ((g : ℕ) → g ≢ fd → sent_to g log1 ≡ sent_to g log)
    → NotIn fd cs
    → Served bytes log1 log' cs stay
    → Served bytes log log' cs stay
Served-from bytes fd log log1 log' [] stay same away h = h
Served-from bytes fd log log1 log' (c ∷ cs) stay same away (inl (rest, e, got, more)) = inl (
  rest,
  e,
  got ∙ ap (λ l. l ++ bytes) (same c.client away.0),
  Served-from bytes fd log log1 log' cs rest same away.1 more,
)
Served-from bytes fd log log1 log' (c ∷ cs) stay same away (inr (gone, more)) =
    inr (gone, Served-from bytes fd log log1 log' cs stay same away.1 more)

keep-some :
    (c : ClientNode) (r : Option (List ClientNode × List Effect)) (stay : List ClientNode)
    (log : List Effect)
    → keep c r ≡ some (stay, log)
    → (rest : List ClientNode) × (r ≡ some (rest, log)) × (stay ≡ c ∷ rest)
keep-some c none stay log e = cc
keep-some c (some (rest, log')) stay log e = (rest, cc, cc)

-- The three ways on for the first client of the list.
broadcast_cases :
    (results : List (Option ℕ)) (bytes : List ℕ) (c : ClientNode) (cs stay : List ClientNode)
    (log log' : List Effect)
    → Honest (length bytes) 0 results
    → broadcast results bytes (c ∷ cs) log ≡ some (stay, log')
    → (log1 : List Effect) × (rest : List (Option ℕ)) × (Honest (length bytes) 0 rest)
      × ((g : ℕ) → g ≢ c.client → sent_to g log1 ≡ sent_to g log)
      × ((g : ℕ) → is_closed g log1 ≡ is_closed g log)
      × ((broadcast rest bytes cs (closed c.client ∷ log1) ≡ some (stay, log'))
          ⊎ ((tail : List ClientNode) × (broadcast rest bytes cs log1 ≡ some (tail, log'))
              × (stay ≡ c ∷ tail)
              × (sent_to c.client log1 ≡ sent_to c.client log ++ bytes)))
unfolding broadcast
broadcast_cases results bytes c cs stay log log' h e =
    let leaves = send_all-Leaves results c.client bytes 0 log h in
    elim (Sending-cases (send_all results c.client bytes 0 log)) [
      | inl p ↦ absurd (none-ne-some _ (sym (broadcast-pending results bytes c cs log p) ∙ e))
      | inr (inl (log1, rest, p)) ↦
          (let left = subst (Leaves (length bytes) c.client log) p leaves in
            (
              log1,
              rest,
              left.0,
              left.1,
              left.2,
              inl (sym (broadcast-failed results bytes c cs log p) ∙ e),
            ))
      | inr (inr (log1, rest, p)) ↦
          (let left = subst (Leaves (length bytes) c.client log) p leaves in
            let (tail, on, split) =
              keep-some c (broadcast rest bytes cs log1) stay log'
                (sym (broadcast-delivered results bytes c cs log p) ∙ e) in
            (
              log1,
              rest,
              left.0,
              left.1,
              left.2,
              inr (tail, on, split, send_all_delivers results c.client bytes 0 log log1 rest p),
            ))
    ]

-- What serving a list does to a socket that is none of theirs.
broadcast_frame :
    (cs : List ClientNode) (results : List (Option ℕ)) (bytes : List ℕ) (log log' : List Effect)
    (stay : List ClientNode) (g : ℕ)
    → Honest (length bytes) 0 results
    → NotIn g cs
    → broadcast results bytes cs log ≡ some (stay, log')
    → (sent_to g log' ≡ sent_to g log) × (is_closed g log ≡ true → is_closed g log' ≡ true)
unfolding broadcast
broadcast_frame [] results bytes log log' stay g h away e = ground arith
broadcast_frame (c ∷ cs) results bytes log log' stay g h away e =
    let (log1, rest, h', others, same, way) =
      broadcast_cases results bytes c cs stay log log' h e in
    let kept : sent_to g log1 ≡ sent_to g log = others g (λ p. away.0 (sym p)) in
    elim way [
      | inl on ↦
          (let (got, gone) =
              broadcast_frame cs rest bytes (closed c.client ∷ log1) log' stay g h' away.1 on in
            (got ∙ kept, λ was. gone (ground (arith, same g))))
      | inr (tail, on, split, all) ↦
          (let (got, gone) = broadcast_frame cs rest bytes log1 log' tail g h' away.1 on in
            (got ∙ kept, λ was. gone (same g ∙ was)))
    ]

pub broadcast-Served :
    (cs : List ClientNode) (results : List (Option ℕ)) (bytes : List ℕ) (log log' : List Effect)
    (stay : List ClientNode)
    → Honest (length bytes) 0 results
    → Distinct cs
    → broadcast results bytes cs log ≡ some (stay, log')
    → Served bytes log log' cs stay
unfolding broadcast
broadcast-Served [] results bytes log log' stay h d e = cc
broadcast-Served (c ∷ cs) results bytes log log' stay h d e =
    let (log1, rest, h', others, same, way) =
      broadcast_cases results bytes c cs stay log log' h e in
    elim way [
      | inl on ↦ inr (
        (broadcast_frame cs rest bytes (closed c.client ∷ log1) log' stay c.client h' d.0 on).1
            (rw (==_refl c.client)),
        Served-from bytes c.client log (closed c.client ∷ log1) log' cs stay others d.0
            (broadcast-Served cs rest bytes (closed c.client ∷ log1) log' stay h' d.1 on),
      )
      | inr (tail, on, split, all) ↦ inl (
        tail,
        split,
        (broadcast_frame cs rest bytes log1 log' tail c.client h' d.0 on).0 ∙ all,
        Served-from bytes c.client log log1 log' cs tail others d.0
            (broadcast-Served cs rest bytes log1 log' tail h' d.1 on),
      )
    ]
