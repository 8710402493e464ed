-- ===== src/Prelude/Bits/Digits.antt =====
-- The recursion on binary digits behind the native `&` and `^`, freed of its count of digits.
use Prim.Native.Nat.{digits, bitwise}
use uav_mission_server.Prelude.{
  ℕ, zero, suc, ◌+◌, ◌-◌, ◌*◌, ◌/◌, ◌%◌, ◌≤◌, ◌≡◌, refl, ap, ◌∙◌, arith,
}

module _ (rest : ℕ → ℕ) (op : ℕ → ℕ → ℕ) where
  -- One more digit to go changes nothing once all of them are counted.
  count_one_more : (n a b : ℕ) → a ≤ n → digits rest op (suc n) a b ≡ digits rest op n a b
  count_one_more zero zero b h = refl
  count_one_more (suc n) zero b h = refl
  count_one_more zero (suc a) b h = absurd (omega arith)
  count_one_more (suc n) (suc a) b h =
      ap (λ t. t * 2 + op (suc a % 2) (b % 2)) (count_one_more n (suc a / 2) (b / 2) (omega arith))

  count_more : (extra n a b : ℕ) → n ≡ a + extra → digits rest op n a b ≡ bitwise rest op a b
  count_more zero n a b e = ap (λ k. digits rest op k a b) (omega arith)
  count_more (suc extra) n a b e =
      let counted : n ≡ suc (a + extra) = omega arith in
      ap (λ k. digits rest op k a b) counted
      ∙ count_one_more (a + extra) a b (omega arith)
      ∙ count_more extra (a + extra) a b refl

  pub bitwise_digits :
      (a b : ℕ)
      → bitwise rest op (suc a) b ≡ bitwise rest op (suc a / 2) (b / 2) * 2 + op (suc a % 2) (b % 2)
  bitwise_digits a b =
      ap (λ t. t * 2 + op (suc a % 2) (b % 2))
        (count_more (a - suc a / 2) a (suc a / 2) (b / 2) (omega arith))
