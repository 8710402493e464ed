-- ===== src/UartServer/Loop/Runs.antt =====
-- How a run of the main loop goes on behind its first round.
use uav_mission_server.Prelude.{
  ◌≡◌, refl, sym, ◌∙◌, ◌⊎◌, inl, inr, Bool, List, [], ◌∷◌, Option, none, some, length,
}
use uav_mission_server.UartServer.State.{Server}
use uav_mission_server.UartServer.Loop.{
  Inputs, Round, next, leave, lost, ◌>>=◌, round, serve, shut_down,
}

pub >>=-eq-next :
    (m : Option Server) (k : Server → Round) (s' : Server)
    → (m >>= k) ≡ next s'
    → (t : Server) × (m ≡ some t) × (k t ≡ next s')
>>=-eq-next none k s' e = cc
>>=-eq-next (some t) k s' e = (t, refl, e)

pub next_injective : {s t : Server} → next s ≡ next t → s ≡ t
next_injective e = cc

pub next_leave : {b : Bool} {s t : Server} → next s ≡ leave b t → ⊥
next_leave e = cc

pub next_lost : {s : Server} → next s ≡ lost → ⊥
next_lost e = cc

pub lost_leave : {b : Bool} {t : Server} → lost ≡ leave b t → ⊥
lost_leave e = cc

pub leave_injective : {b c : Bool} {s t : Server} → leave b s ≡ leave c t → (b ≡ c) × (s ≡ t)
leave_injective e = (cc, cc)

pub Round-cases :
    (r : Round)
    → ((t : Server) × (r ≡ next t)) ⊎ ((b : Bool) × (t : Server) × (r ≡ leave b t)) ⊎ (r ≡ lost)
Round-cases (next t) = inl (t, refl)
Round-cases (leave b t) = inr (inl (b, t, refl))
Round-cases lost = inr (inr refl)

pub serve_none : (s : Server) → serve [] s ≡ next s
unfolding serve
serve_none s = refl

module _ (i : Inputs) (is : List Inputs) (s : Server) where
  pub serve_next : (t : Server) → round i s ≡ next t → serve (i ∷ is) s ≡ serve is t
  unfolding serve
  serve_next t p = rw (p, serve)

  pub serve_leave :
      (b : Bool) (t : Server)
      → round i s ≡ leave b t
      → serve (i ∷ is) s ≡ leave b (shut_down (length t.g_clients) t)
  unfolding serve
  serve_leave b t p = rw (p, serve)

  pub serve_lost : round i s ≡ lost → serve (i ∷ is) s ≡ lost
  unfolding serve
  serve_lost p = rw (p, serve)

  -- A run that is still going after its first round.
  pub serve-eq-next :
      (s' : Server)
      → serve (i ∷ is) s ≡ next s'
      → (t : Server) × (round i s ≡ next t) × (serve is t ≡ next s')
  serve-eq-next s' e = elim (Round-cases (round i s)) [
    | inl (t, p) ↦ (t, p, sym (serve_next t p) ∙ e)
    | inr (inl (b, t, p)) ↦ absurd (next_leave (sym e ∙ serve_leave b t p))
    | inr (inr p) ↦ absurd (next_lost (sym e ∙ serve_lost p))
  ]
