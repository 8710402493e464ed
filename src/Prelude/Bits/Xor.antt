-- ===== src/Prelude/Bits/Xor.antt =====
-- Laws of `^` (exclusive or) on numbers of any size, from the recursion on binary digits that the
-- native operation stands for.
use Prim.Native.Nat.{bit_xor, differ, bit_xor-bitwise}
use native.Mathlib.Nat.{pow-suc}
use uav_mission_server.Prelude.{
  ℕ, zero, suc, ◌+◌, ◌*◌, ◌/◌, ◌%◌, ◌^◌, ◌≤◌, ◌<◌, ◌≡◌, refl, sym, ap, ap₂, ◌∙◌, arith,
}
use uav_mission_server.Prelude.Bits.Digits.{bitwise_digits}
use uav_mission_server.Prelude.Bits.Powers.{half_double, times_one, mul-pow_suc}

pub zero-bit_xor : (b : ℕ) → bit_xor 0 b ≡ b
zero-bit_xor = bit_xor-bitwise 0

bit_xor_last : (a b : ℕ) → bit_xor a b ≡ bit_xor (a / 2) (b / 2) * 2 + differ (a % 2) (b % 2)
bit_xor_last zero b = omega (arith, zero-bit_xor b, zero-bit_xor (b / 2))
bit_xor_last (suc a) b =
    bit_xor-bitwise (suc a) b
    ∙ bitwise_digits (λ c. c) differ a b
    ∙ ap (λ t. t * 2 + differ (suc a % 2) (b % 2)) (sym (bit_xor-bitwise (suc a / 2) (b / 2)))

-- The lowest digit of an exclusive or, and the rest.
differ_digit : (x y : ℕ) → differ (x % 2) (y % 2) ≡ (x % 2 + y % 2) % 2
differ_digit x y = digit_cases (x % 2) (y % 2) (omega arith) (omega arith)
  where
    digit_cases : (a b : ℕ) → a < 2 → b < 2 → differ a b ≡ (a + b) % 2
    digit_cases zero zero h k = refl
    digit_cases zero (suc zero) h k = refl
    digit_cases (suc zero) zero h k = refl
    digit_cases (suc zero) (suc zero) h k = refl
    digit_cases zero (suc (suc b)) h k = absurd (omega arith)
    digit_cases (suc zero) (suc (suc b)) h k = absurd (omega arith)
    digit_cases (suc (suc a)) b h k = absurd (omega arith)

pub bit_xor_digits :
    (a b : ℕ)
    → (bit_xor a b / 2 ≡ bit_xor (a / 2) (b / 2)) × (bit_xor a b % 2 ≡ (a % 2 + b % 2) % 2)
bit_xor_digits a b = omega (arith, bit_xor_last a b, differ_digit a b)

bit_xor_comm_fuel : (n a b : ℕ) → a ≤ n → b ≤ n → bit_xor a b ≡ bit_xor b a
bit_xor_comm_fuel zero zero zero h k = refl
bit_xor_comm_fuel zero (suc a) b h k = absurd (omega arith)
bit_xor_comm_fuel zero zero (suc b) h k = absurd (omega arith)
bit_xor_comm_fuel (suc n) a b h k = omega (
  arith,
  bit_xor_digits a b,
  bit_xor_digits b a,
  bit_xor_comm_fuel n (a / 2) (b / 2) (omega arith) (omega arith),
)

pub bit_xor_comm : (a b : ℕ) → bit_xor a b ≡ bit_xor b a
bit_xor_comm a b = bit_xor_comm_fuel (a + b) a b (omega arith) (omega arith)

pub bit_xor-zero : (a : ℕ) → bit_xor a 0 ≡ a
bit_xor-zero a = bit_xor_comm a 0 ∙ zero-bit_xor a

bit_xor_assoc_fuel :
    (n a b c : ℕ) → a + b + c ≤ n → bit_xor (bit_xor a b) c ≡ bit_xor a (bit_xor b c)
bit_xor_assoc_fuel n zero b c h = rw (zero-bit_xor b, zero-bit_xor (bit_xor b c))
bit_xor_assoc_fuel zero (suc a) b c h = absurd (omega arith)
bit_xor_assoc_fuel (suc n) (suc a) b c h = omega (
  arith,
  bit_xor_digits (bit_xor (suc a) b) c,
  bit_xor_digits (suc a) (bit_xor b c),
  bit_xor_digits (suc a) b,
  bit_xor_digits b c,
  ap (λ t. bit_xor t (c / 2)) (bit_xor_digits (suc a) b).0,
  ap (bit_xor (suc a / 2)) (bit_xor_digits b c).0,
  bit_xor_assoc_fuel n (suc a / 2) (b / 2) (c / 2) (omega arith),
)

pub bit_xor_assoc : (a b c : ℕ) → bit_xor (bit_xor a b) c ≡ bit_xor a (bit_xor b c)
bit_xor_assoc a b c = bit_xor_assoc_fuel (a + b + c) a b c (omega arith)

bit_xor_self_fuel : (n a : ℕ) → a ≤ n → bit_xor a a ≡ 0
bit_xor_self_fuel n zero h = refl
bit_xor_self_fuel zero (suc a) h = absurd (omega arith)
bit_xor_self_fuel (suc n) (suc a) h =
    omega (arith, bit_xor_digits (suc a) (suc a), bit_xor_self_fuel n (suc a / 2) (omega arith))

pub bit_xor_self : (a : ℕ) → bit_xor a a ≡ 0
bit_xor_self a = bit_xor_self_fuel a a (omega arith)

-- Equal to a third by exclusive or, so equal.
pub bit_xor_cancel : (a b : ℕ) → bit_xor a (bit_xor a b) ≡ b
bit_xor_cancel a b =
    sym (bit_xor_assoc a a b) ∙ ap (λ t. bit_xor t b) (bit_xor_self a) ∙ zero-bit_xor b

pub bit_xor_lt : (k a b : ℕ) → a < 2 ^ k → b < 2 ^ k → bit_xor a b < 2 ^ k
bit_xor_lt zero a b h g = omega (arith, ap₂ bit_xor (zero_of_lt a h) (zero_of_lt b g))
  where
    zero_of_lt : (x : ℕ) → x < 2 ^ 0 → x ≡ 0
    zero_of_lt x lt = omega arith
bit_xor_lt (suc k) a b h g = omega (
  arith,
  pow-suc 2 k,
  bit_xor_digits a b,
  bit_xor_lt k (a / 2) (b / 2) (omega (arith, pow-suc 2 k)) (omega (arith, pow-suc 2 k)),
)

-- Doubling, and exclusive or of disjoint fields.
pub bit_xor_double : (a b : ℕ) → bit_xor (2 * a) (2 * b) ≡ 2 * bit_xor a b
bit_xor_double a b =
    omega (arith, bit_xor_digits (2 * a) (2 * b), ap₂ bit_xor (half_double a) (half_double b))

pub bit_xor_shift : (k a b : ℕ) → bit_xor (a * 2 ^ k) (b * 2 ^ k) ≡ bit_xor a b * 2 ^ k
bit_xor_shift zero a b = omega (arith, ap₂ bit_xor (times_one a) (times_one b))
bit_xor_shift (suc k) a b = omega (
  arith,
  ap₂ bit_xor (mul-pow_suc a k) (mul-pow_suc b k),
  bit_xor_double (a * 2 ^ k) (b * 2 ^ k),
  bit_xor_shift k a b,
  mul-pow_suc (bit_xor a b) k,
)

-- Exclusive or acts on a high field and a low field of `k` bits apart.
pub bit_xor_fields :
    (k q r p s : ℕ)
    → r < 2 ^ k
    → s < 2 ^ k
    → bit_xor (q * 2 ^ k + r) (p * 2 ^ k + s) ≡ bit_xor q p * 2 ^ k + bit_xor r s
bit_xor_fields zero q r p s h g = omega (
  arith,
  ap₂ bit_xor (whole q r h) (whole p s g),
  ap₂ bit_xor (no_digits r h) (no_digits s g),
  bit_xor-zero 0,
  times_one (bit_xor q p),
)
  where
    whole : (x y : ℕ) → y < 2 ^ 0 → x * 2 ^ 0 + y ≡ x
    whole x y lt = omega arith

    no_digits : (x : ℕ) → x < 2 ^ 0 → x ≡ 0
    no_digits x lt = omega arith
bit_xor_fields (suc k) q r p s h g = omega (
  arith,
  bit_xor_digits (q * 2 ^ suc k + r) (p * 2 ^ suc k + s),
  ap₂ bit_xor (half_field q r) (half_field p s),
  bit_xor_fields k q (r / 2) p (s / 2) (omega (arith, pow-suc 2 k)) (omega (arith, pow-suc 2 k)),
  bit_xor_digits r s,
  mul-pow_suc q k,
  mul-pow_suc p k,
  mul-pow_suc (bit_xor q p) k,
)
  where
    half_field : (x y : ℕ) → (x * 2 ^ suc k + y) / 2 ≡ x * 2 ^ k + y / 2
    half_field x y = omega (arith, mul-pow_suc x k)
