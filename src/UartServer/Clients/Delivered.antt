-- ===== src/UartServer/Clients/Delivered.antt =====
-- What `send_data_to_clients` gets to the clients, when `send` keeps its contract.
use uav_mission_server.Prelude.{
  ℕ, zero, suc, ◌+◌, ◌≤◌, ◌≡◌, ◌≢◌, refl, sym, ap, ◌∙◌, arith, Bool, true, false, ◌||◌, List, [],
  ◌∷◌, ◌++◌, Option, none, some, length, take, drop, take-append-drop, drop-length, if◌then◌else◌,
  ◌==◌, ==_iff, ==_refl, Bool-cases, inl, inr,
}
use mathlib.Core.Path.{subst}
use native.Mathlib.Nat.{zero-add}
use mathlib.Core.List.{append_assoc, append-nil}
use uav_mission_server.UartServer.State.{Effect, sent, closed, wrote, parsed, tune}
use uav_mission_server.UartServer.Clients.{Sending, failed, delivered, pending, send_all}

-- The contract of `send` for a buffer of `len` bytes of which `done` are sent: a call that does not
-- fail takes at least one byte, and no more than it was given. The next call goes on behind them, or
-- starts over with the next client.
abbrev pub Honest : ℕ → ℕ → List (Option ℕ) → Type 0
Honest len done [] = Unit {0}
Honest len done (none ∷ results) = Honest len 0 results
Honest len done (some n ∷ results) =
    (1 ≤ n) × (done + n ≤ len) × Honest len (if done + n == len then 0 else done + n) results

-- The bytes that a socket was sent, oldest first.
abbrev pub sent_to : ℕ → List Effect → List ℕ
sent_to fd [] = []
sent_to fd (sent g bytes ∷ log) = if g == fd then sent_to fd log ++ bytes else sent_to fd log
sent_to fd (closed g ∷ log) = sent_to fd log
sent_to fd (wrote id bytes ∷ log) = sent_to fd log
sent_to fd (parsed bytes ∷ log) = sent_to fd log
sent_to fd (tune n ∷ log) = sent_to fd log

abbrev pub is_closed : ℕ → List Effect → Bool
is_closed fd [] = false
is_closed fd (closed g ∷ log) = g == fd || is_closed fd log
is_closed fd (sent g bytes ∷ log) = is_closed fd log
is_closed fd (wrote id bytes ∷ log) = is_closed fd log
is_closed fd (parsed bytes ∷ log) = is_closed fd log
is_closed fd (tune n ∷ log) = is_closed fd log

-- What is left over by the calls for one client.
abbrev pub Leaves : ℕ → ℕ → List Effect → Sending → Type 0
Leaves len fd log pending = Unit
Leaves len fd log (failed log' rest) =
    Honest len 0 rest
    × ((g : ℕ) → g ≢ fd → sent_to g log' ≡ sent_to g log)
    × ((g : ℕ) → is_closed g log' ≡ is_closed g log)
Leaves len fd log (delivered log' rest) =
    Honest len 0 rest
    × ((g : ℕ) → g ≢ fd → sent_to g log' ≡ sent_to g log)
    × ((g : ℕ) → is_closed g log' ≡ is_closed g log)

other_socket :
    (fd g : ℕ) (bytes : List ℕ) (log : List Effect)
    → g ≢ fd
    → sent_to g (sent fd bytes ∷ log) ≡ sent_to g log
other_socket fd g bytes log ne = ground arith

Leaves-sent :
    (len fd : ℕ) (bytes : List ℕ) (log : List Effect) (x : Sending)
    → Leaves len fd (sent fd bytes ∷ log) x
    → Leaves len fd log x
Leaves-sent len fd bytes log pending h = h
Leaves-sent len fd bytes log (failed log' rest) h =
    (h.0, λ g ne. h.1 g ne ∙ other_socket fd g bytes log ne, h.2)
Leaves-sent len fd bytes log (delivered log' rest) h =
    (h.0, λ g ne. h.1 g ne ∙ other_socket fd g bytes log ne, h.2)

module _ (len done n : ℕ) (results : List (Option ℕ)) (h : Honest len done (some n ∷ results)) where
  pub Honest-next :
      (b : Bool) → (done + n == len) ≡ b → Honest len (if b then 0 else done + n) results
  Honest-next b e = subst (λ t. Honest len (if t then 0 else done + n) results) e h.2

pub send_all-Leaves :
    (results : List (Option ℕ)) (fd : ℕ) (bytes : List ℕ) (done : ℕ) (log : List Effect)
    → Honest (length bytes) done results
    → Leaves (length bytes) fd log (send_all results fd bytes done log)
unfolding send_all
send_all-Leaves [] fd bytes done log h = tt
send_all-Leaves (none ∷ results) fd bytes done log h = (h, λ g ne. refl, λ g. refl)
send_all-Leaves (some n ∷ results) fd bytes done log h =
    elim (Bool-cases (done + n == length bytes)) [
      | inl all ↦ rw all (
        Honest-next (length bytes) done n results h true all,
        λ g ne. other_socket fd g (take n (drop done bytes)) log ne,
        λ g. refl,
      )
      | inr more ↦ rw more (
          Leaves-sent (length bytes) fd _ log _ (
            send_all-Leaves results fd bytes (done + n) _
              (Honest-next (length bytes) done n results h false more)))
    ]

drop-nil : {A : Type 0} (n : ℕ) → drop {A = A} n [] ≡ []
drop-nil zero = refl
drop-nil (suc n) = refl

take-drop-more :
    {A : Type 0} (n done : ℕ) (xs : List A)
    → take n (drop done xs) ++ drop (done + n) xs ≡ drop done xs
take-drop-more n zero xs = ap (λ k. take n xs ++ drop k xs) (zero-add n) ∙ take-append-drop n xs
take-drop-more zero (suc done) [] = drop-nil (suc done + 0)
take-drop-more (suc n) (suc done) [] = drop-nil (suc done + suc n)
take-drop-more n (suc done) (x ∷ xs) =
    let moved : suc done + n ≡ suc (done + n) = omega arith in
    ap (λ k. take n (drop done xs) ++ drop k (x ∷ xs)) moved ∙ take-drop-more n done xs

delivered_log :
    {log log' : List Effect} {rest rest' : List (Option ℕ)}
    → delivered log rest ≡ delivered log' rest'
    → log ≡ log'
delivered_log e = cc

own_socket :
    (fd : ℕ) (bytes : List ℕ) (log : List Effect)
    → sent_to fd (sent fd bytes ∷ log) ≡ sent_to fd log ++ bytes
own_socket fd bytes log = rw (==_refl fd)

-- A delivery sends all that was left, in order.
pub send_all_delivers :
    (results : List (Option ℕ)) (fd : ℕ) (bytes : List ℕ) (done : ℕ) (log log' : List Effect)
    (rest : List (Option ℕ))
    → send_all results fd bytes done log ≡ delivered log' rest
    → sent_to fd log' ≡ sent_to fd log ++ drop done bytes
unfolding send_all
send_all_delivers [] fd bytes done log log' rest e = cc
send_all_delivers (none ∷ results) fd bytes done log log' rest e = cc
send_all_delivers (some n ∷ results) fd bytes done log log' rest e =
    let chunk : List ℕ = take n (drop done bytes) in
    elim (Bool-cases (done + n == length bytes)) [
      | inl all ↦
          (let last : delivered (sent fd chunk ∷ log) results ≡ delivered log' rest =
              sym (rw all refl) ∙ e in
            let spent : drop (done + n) bytes ≡ [] =
              ap (λ k. drop k bytes) ((==_iff _ _).0 all) ∙ drop-length bytes in
            ap (sent_to fd) (delivered_log (sym last))
            ∙ own_socket fd chunk log
            ∙ ap (◌++◌ (sent_to fd log)) (
                sym (append-nil chunk) ∙ ap (◌++◌ chunk) (sym spent) ∙ take-drop-more n done bytes))
      | inr more ↦
          (let further : send_all results fd bytes (done + n) (sent fd chunk ∷ log)
                ≡ delivered log' rest =
              sym (rw more refl) ∙ e in
            send_all_delivers results fd bytes (done + n) (sent fd chunk ∷ log) log' rest further
            ∙ ap (λ l. l ++ drop (done + n) bytes) (own_socket fd chunk log)
            ∙ append_assoc (sent_to fd log) chunk (drop (done + n) bytes)
            ∙ ap (◌++◌ (sent_to fd log)) (take-drop-more n done bytes))
    ]
