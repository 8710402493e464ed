-- ===== src/UartServer/Port/Exact.antt =====
-- The port that the server accepts is the number that the text spells, although the overflow check
-- of `get_unsigned` lets some numbers wrap.
use uav_mission_server.Prelude.{
  ℕ, suc, ◌+◌, ◌-◌, ◌*◌, ◌≤◌, ◌≡◌, ◌≢◌, ◌↔◌, refl, sym, ap, ◌∙◌, arith, Bool, true, false, List, [],
  ◌∷◌, some, length,
}
use uav_mission_server.UartServer.Port.{
  isdigit, push_digit, digits_loop, get_unsigned, check_port, server_port, default_port,
}

abbrev pub AllDigits : List ℕ → Type 0
AllDigits [] = Unit {0}
AllDigits (c ∷ s) = (isdigit c ≡ true) × AllDigits s

-- The number that a text spells after the number `n`, with no bound on its size.
abbrev pub decimal_from : ℕ → List ℕ → ℕ
decimal_from n [] = n
decimal_from n (c ∷ s) = decimal_from (n * 10 + (c - b'0')) s

abbrev pub decimal : List ℕ → ℕ
decimal s = decimal_from 0 s

le-decimal_from : (n : ℕ) (s : List ℕ) → n ≤ decimal_from n s
le-decimal_from n [] = omega arith
le-decimal_from n (c ∷ s) = omega (arith, le-decimal_from (n * 10 + (c - b'0')) s)

digits_loop_accepts :
    (n : ℕ) (s : List ℕ)
    → AllDigits s
    → decimal_from n s ≤ 0xffff
    → digits_loop (length s) s n ≡ (true, decimal_from n s)
unfolding digits_loop
digits_loop_accepts n [] d h = refl
digits_loop_accepts n (c ∷ s) d h =
    let small : n * 10 + (c - b'0') ≤ 0xffff =
      omega (arith, le-decimal_from (n * 10 + (c - b'0')) s) in
    let exact : push_digit n c ≡ n * 10 + (c - b'0') = omega arith in
    rw (d.0, exact) (ground (arith, digits_loop_accepts (n * 10 + (c - b'0')) s d.1 h))

digit_bound : (c : ℕ) → isdigit c ≡ true → c - b'0' ≤ 9
digit_bound c h = ground arith

-- A round that does not fail has read a digit and has not gone below the number before.
round_passes :
    (n c : ℕ) (s : List ℕ) (p : ℕ)
    → digits_loop (suc (length s)) (c ∷ s) n ≡ (true, p)
    → (isdigit c ≡ true)
      × (n ≤ push_digit n c)
      × (digits_loop (length s) s (push_digit n c) ≡ (true, p))
unfolding digits_loop
round_passes n c s p e = ground arith

digits_loop_exact :
    (n : ℕ) (s : List ℕ) (p : ℕ)
    → digits_loop (length s) s n ≡ (true, p)
    → p ≤ 0xffff
    → AllDigits s × (decimal_from n s ≡ p) × (n ≤ p)
unfolding digits_loop
digits_loop_exact n [] p e h = ground arith
digits_loop_exact n (c ∷ s) p e h =
    let next : ℕ = push_digit n c in
    let (digit, in_order, rest) = round_passes n c s p e in
    let (all, value, below) = digits_loop_exact next s p rest h in
    let exact : next ≡ n * 10 + (c - b'0') = omega (arith, digit_bound c digit) in
    ((digit, all), ap (λ m. decimal_from m s) (sym exact) ∙ value, omega arith)

-- The texts that stand for a port: digits only, at least one, and a value from 1 to 65535.
abbrev pub SpellsPort : List ℕ → ℕ → Type 0
SpellsPort s p = (s ≢ []) × AllDigits s × (decimal s ≡ p) × (1 ≤ p) × (p ≤ 0xffff)

check_port-some :
    (r : Bool × ℕ) (p : ℕ) → check_port r ≡ some p → (r ≡ (true, p)) × (1 ≤ p) × (p ≤ 0xffff)
unfolding check_port
check_port-some (true, port) p e = ground arith
check_port-some (false, port) p e = cc

get_unsigned_enters :
    (c : ℕ) (s : List ℕ) (old : ℕ)
    → get_unsigned (some (c ∷ s)) (suc (length s)) old ≡ digits_loop (suc (length s)) (c ∷ s) 0
unfolding get_unsigned
get_unsigned_enters c s old = ground arith

server_port_sound : (s : List ℕ) (p : ℕ) → server_port (some s) ≡ some p → SpellsPort s p
unfolding server_port get_unsigned check_port
server_port_sound [] p e = cc
server_port_sound (c ∷ s) p e =
    let (parsed, low, high) =
      check_port-some (get_unsigned (some (c ∷ s)) (suc (length s)) default_port) p e in
    let loop : digits_loop (suc (length s)) (c ∷ s) 0 ≡ (true, p) =
      sym (get_unsigned_enters c s default_port) ∙ parsed in
    let (all, value, below) = digits_loop_exact 0 (c ∷ s) p loop high in
    (λ nil. cc nil, all, value, low, high)

server_port_complete : (s : List ℕ) (p : ℕ) → SpellsPort s p → server_port (some s) ≡ some p
unfolding server_port check_port
server_port_complete [] p h = absurd (h.0 refl)
server_port_complete (c ∷ s) p h =
    let bounded : decimal (c ∷ s) ≤ 0xffff = omega arith in
    rw (get_unsigned_enters c s default_port, digits_loop_accepts 0 (c ∷ s) h.1 bounded)
      (ground arith)

-- The server binds to port `p` for a given text exactly when the text is a non-empty sequence of
-- digits whose exact value is `p` and `p` lies from 1 to 65535; leading zeros and texts of any length
-- included.
pub server_port_iff : (s : List ℕ) (p : ℕ) → (server_port (some s) ≡ some p) ↔ SpellsPort s p
server_port_iff s p = (server_port_sound s p, server_port_complete s p)
