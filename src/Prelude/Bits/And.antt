-- ===== src/Prelude/Bits/And.antt =====
-- Laws of `&` with a mask of ones.
use Prim.Native.Nat.{bit_and, min, bit_and-bitwise}
use native.Mathlib.Nat.{pow-suc, one-le-pow}
use uav_mission_server.Prelude.{
  ℕ, zero, suc, ◌+◌, ◌-◌, ◌*◌, ◌/◌, ◌%◌, ◌^◌, ◌≤◌, ◌<◌, ◌≡◌, ap, ap₂, sym, ◌∙◌, arith,
}
use uav_mission_server.Prelude.Bits.Digits.{bitwise_digits}
use uav_mission_server.Prelude.Bits.Powers.{half_double, times_one, mul-pow_suc}

bit_and_last : (a b : ℕ) → bit_and a b ≡ bit_and (a / 2) (b / 2) * 2 + min (a % 2) (b % 2)
bit_and_last zero b = omega (arith, bit_and-bitwise 0 b, bit_and-bitwise 0 (b / 2))
bit_and_last (suc a) b =
    bit_and-bitwise (suc a) b
    ∙ bitwise_digits (λ c. 0) min a b
    ∙ ap (λ t. t * 2 + min (suc a % 2) (b % 2)) (sym (bit_and-bitwise (suc a / 2) (b / 2)))

-- No digit in common with 0. The bound is for the recursion.
nothing_common : (bound a : ℕ) → a ≤ bound → bit_and a 0 ≡ 0
nothing_common bound zero h = bit_and-bitwise 0 0
nothing_common zero (suc a) h = absurd (omega arith)
nothing_common (suc bound) (suc a) h =
    bit_and_last (suc a) 0 ∙ omega (arith, nothing_common bound (suc a / 2) (omega arith))

pub bit_and-zero : (a : ℕ) → bit_and a 0 ≡ 0
bit_and-zero a = nothing_common a a (omega arith)

bit_and_low : (k q r : ℕ) → r < 2 ^ k → bit_and (q * 2 ^ k + r) (2 ^ k - 1) ≡ r
bit_and_low zero q r h = omega (arith, bit_and-zero (q * 2 ^ 0 + r))
bit_and_low (suc k) q r h = omega (
  arith,
  pow-suc 2 k,
  one-le-pow k 2,
  bit_and_last (q * 2 ^ suc k + r) (2 ^ suc k - 1),
  ap₂ bit_and half_field half_mask,
  bit_and_low k q (r / 2) (omega (arith, pow-suc 2 k)),
  mul-pow_suc q k,
)
  where
    half_mask : (2 ^ suc k - 1) / 2 ≡ 2 ^ k - 1
    half_mask = omega (arith, pow-suc 2 k)

    half_field : (q * 2 ^ suc k + r) / 2 ≡ q * 2 ^ k + r / 2
    half_field = omega (arith, mul-pow_suc q k)

-- `a & (2 ^ k - 1)` is the remainder by `2 ^ k`.
pub bit_and_mask : (k a : ℕ) → bit_and a (2 ^ k - 1) ≡ a % 2 ^ k
bit_and_mask k a = ground (arith, one-le-pow k 2, bit_and_low k (a / 2 ^ k) (a % 2 ^ k))

-- Zero digits below a field stay zero under a mask.
pub bit_and_shift : (k a b : ℕ) → bit_and (a * 2 ^ k) (b * 2 ^ k) ≡ bit_and a b * 2 ^ k
bit_and_shift zero a b = omega (arith, ap₂ bit_and (times_one a) (times_one b))
bit_and_shift (suc k) a b = omega (
  arith,
  ap₂ bit_and (mul-pow_suc a k) (mul-pow_suc b k),
  bit_and_last (2 * (a * 2 ^ k)) (2 * (b * 2 ^ k)),
  ap₂ bit_and (half_double (a * 2 ^ k)) (half_double (b * 2 ^ k)),
  bit_and_shift k a b,
  mul-pow_suc (bit_and a b) k,
)
