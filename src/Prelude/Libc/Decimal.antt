-- ===== src/Prelude/Libc/Decimal.antt =====
-- Decimal numbers, written and read again.
use uav_mission_server.Prelude.{
  ℕ, zero, suc, ◌+◌, ◌-◌, ◌*◌, ◌/◌, ◌%◌, ◌^◌, ◌≤◌, ◌<◌, ◌≡◌, refl, sym, ap, ◌∙◌, inl, inr, arith,
  Bool-cases, false, List, [], ◌∷◌, ◌++◌, ltb, ◌==◌,
}
use mathlib.Core.Path.{subst}
use uav_mission_server.Prelude.Int.{ℤ, pos, negsuc, ◌-ℤ◌, ◌≤ℤ◌}
use uav_mission_server.Prelude.Libc.{
  digits, show_int, digits_value, isspace, skip_spaces, signed_value, atoi,
}

-- Characters that are digits, all of them.
abbrev pub AllDigits : List ℕ → Type 0
AllDigits [] = Unit {0}
AllDigits (c ∷ s) = (b'0' ≤ c) × (c ≤ b'9') × AllDigits s

-- The number that digits spell behind those of `n`.
abbrev pub value : ℕ → List ℕ → ℕ
value n [] = n
value n (c ∷ s) = value (n * 10 + (c - b'0')) s

pub value-append : (n : ℕ) (a b : List ℕ) → value n (a ++ b) ≡ value (value n a) b
value-append n [] b = refl
value-append n (c ∷ a) b = value-append (n * 10 + (c - b'0')) a b

pub AllDigits-append : (a b : List ℕ) → AllDigits a → AllDigits b → AllDigits (a ++ b)
AllDigits-append [] b h k = k
AllDigits-append (c ∷ a) b (low, high, h) k = (low, high, AllDigits-append a b h k)

-- A number of up to k + 1 digits.
abbrev pub Fits : ℕ → ℕ → Type 0
Fits zero n = n < 10
Fits (suc k) n = Fits k (n / 10)

pub digits-AllDigits : (fuel n : ℕ) → AllDigits (digits fuel n)
unfolding digits
digits-AllDigits zero n = (omega arith, omega arith, tt)
digits-AllDigits (suc fuel) n = elim (Bool-cases (ltb n 10)) [
  | inl small ↦ rw small (omega arith, ground arith, tt)
  | inr large ↦ rw large (
      AllDigits-append (digits fuel (n / 10)) _ (digits-AllDigits fuel (n / 10))
        (omega arith, omega arith, tt))
]

pub value-digits : (fuel n : ℕ) → Fits fuel n → value 0 (digits fuel n) ≡ n
unfolding digits
value-digits zero n h = omega arith
value-digits (suc fuel) n h = elim (Bool-cases (ltb n 10)) [
  | inl small ↦ rw small (omega arith)
  | inr large ↦ rw large (
      value-append 0 (digits fuel (n / 10)) ((b'0' + n % 10) ∷ [])
      ∙ ap (λ v. v * 10 + (b'0' + n % 10 - b'0')) (value-digits fuel (n / 10) h)
      ∙ omega arith)
]

digits_value-value : (n : ℕ) (s : List ℕ) → AllDigits s → digits_value n s ≡ value n s
unfolding digits_value
digits_value-value n [] h = refl
digits_value-value n (c ∷ s) (low, high, h) =
    ground (arith, digits_value-value (n * 10 + (c - b'0')) s h)

digits-cons : (fuel n : ℕ) → (c : ℕ) × (s : List ℕ) × (digits fuel n ≡ c ∷ s)
unfolding digits
digits-cons zero n = (_, [], refl)
digits-cons (suc fuel) n = elim (Bool-cases (ltb n 10)) [
  | inl small ↦ (b'0' + n, [], rw small refl)
  | inr large ↦
      (let (c, s, is) = digits-cons fuel (n / 10) in
        (c, s ++ (b'0' + n % 10) ∷ [], rw large (ap (λ l. l ++ (b'0' + n % 10) ∷ []) is)))
]

no_space : (c : ℕ) → b'0' ≤ c → isspace c ≡ false
unfolding isspace
no_space c h = ground arith

-- A text that begins with a digit is read as it stands.
skip_digits : (c : ℕ) (s : List ℕ) → b'0' ≤ c → skip_spaces (c ∷ s) ≡ c ∷ s
unfolding skip_spaces
skip_digits c s h = rw (no_space c h) refl

no_sign : (c : ℕ) → b'0' ≤ c → ((c == b'-') ≡ false) × ((c == b'+') ≡ false)
no_sign c h = (ground arith, ground arith)

signed_digits :
    (c : ℕ) (s : List ℕ) → AllDigits (c ∷ s) → signed_value (c ∷ s) ≡ pos (value 0 (c ∷ s))
unfolding signed_value
signed_digits c s h =
    let (minus, plus) = no_sign c h.0 in rw (minus, plus) (ap pos (digits_value-value 0 (c ∷ s) h))

read_digits : (n : ℕ) → Fits 9 n → atoi (digits 9 n) ≡ pos n
unfolding atoi
read_digits n h =
    let (c, s, is) = digits-cons 9 n in
    let all : AllDigits (c ∷ s) = subst AllDigits is (digits-AllDigits 9 n) in
    ap atoi is
    ∙ ap signed_value (skip_digits c s all.0)
    ∙ signed_digits c s all
    ∙ ap (λ l. pos (value 0 l)) (sym is)
    ∙ ap pos (value-digits 9 n h)

negated : (n : ℕ) → pos 0 -ℤ pos (n + 1) ≡ negsuc n
unfolding ◌-ℤ◌
negated n = ground arith

read_negative : (n : ℕ) → Fits 9 (n + 1) → atoi (b'-' ∷ digits 9 (n + 1)) ≡ negsuc n
unfolding atoi signed_value skip_spaces isspace
read_negative n h =
    ap (λ v. pos 0 -ℤ pos v)
      (digits_value-value 0 (digits 9 (n + 1)) (digits-AllDigits 9 (n + 1))
        ∙ value-digits 9 (n + 1) h)
    ∙ negated n

-- Every `int` is read back from its text.
pub atoi-show_int :
    (z : ℤ) → negsuc (2 ^ 31 - 1) ≤ℤ z → z ≤ℤ pos (2 ^ 31 - 1) → atoi (show_int z) ≡ z
unfolding show_int
atoi-show_int (pos n) lo hi = read_digits n (omega arith)
atoi-show_int (negsuc n) lo hi = read_negative n (omega arith)
