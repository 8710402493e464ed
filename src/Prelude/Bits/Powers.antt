-- ===== src/Prelude/Bits/Powers.antt =====
-- Powers of two under doubling and halving.
use native.Mathlib.Nat.{pow-suc}
use uav_mission_server.Prelude.{ℕ, suc, ◌*◌, ◌/◌, ◌^◌, ◌≡◌, ap, arith}

pub half_double : (x : ℕ) → (2 * x) / 2 ≡ x
half_double x = omega arith

pub times_one : (x : ℕ) → x * 2 ^ 0 ≡ x
times_one x = omega arith

pub mul-pow_suc : (x k : ℕ) → x * 2 ^ suc k ≡ 2 * (x * 2 ^ k)
mul-pow_suc x k = omega (arith, ap (λ (t : ℕ). x * t) (pow-suc 2 k))
