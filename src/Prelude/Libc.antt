-- ===== src/Prelude/Libc.antt =====
-- Functions of the C library on strings, which are the lists of their characters without the NUL.
pub mod Decimal
use uav_mission_server.Prelude.{
  ℕ, zero, suc, ◌/◌, ◌%◌, ◌++◌, ltb, ◌+◌, ◌-◌, ◌*◌, ◌≡◌, refl, ap₂, inl, inr, arith, Bool-cases,
  ==_refl, ==_iff, Bool, true, false, ◌||◌, ◌&&◌, List, [], ◌∷◌, leb, ◌==◌, if◌then◌else◌,
}
use uav_mission_server.Prelude.Int.{ℤ, pos, negsuc, ◌-ℤ◌}

-- `strcmp(a, b) == 0`
unfoldable pub str_eq : List ℕ → List ℕ → Bool
str_eq [] [] = true
str_eq [] (b ∷ bs) = false
str_eq (a ∷ as') [] = false
str_eq (a ∷ as') (b ∷ bs) = a == b && str_eq as' bs

isspace : ℕ → Bool
isspace c = c == 32 || leb 9 c && leb c 13

skip_spaces : List ℕ → List ℕ
unfolding isspace
skip_spaces [] = []
skip_spaces (c ∷ s) = if isspace c then skip_spaces s else c ∷ s

-- The number that the leading digits spell.
digits_value : ℕ → List ℕ → ℕ
digits_value n [] = n
digits_value n (c ∷ s) =
    let rest = digits_value (n * 10 + (c - b'0')) s in if leb b'0' c && leb c b'9' then rest else n

signed_value : List ℕ → ℤ
unfolding digits_value
signed_value [] = pos 0
signed_value (c ∷ s) =
    if c == b'-'
    then pos 0 -ℤ pos (digits_value 0 s)
    else if c == b'+'
    then pos (digits_value 0 s)
    else pos (digits_value 0 (c ∷ s))

-- `atoi`, for numbers that fit an `int`; the behaviour on others is undefined.
unfoldable pub atoi : List ℕ → ℤ
unfolding skip_spaces signed_value ◌-ℤ◌
atoi s = signed_value (skip_spaces s)

-- The decimal digits of a number below 10 ^ (fuel + 1), as `printf` writes them.
unfoldable pub digits : ℕ → ℕ → List ℕ
digits zero n = (b'0' + n % 10) ∷ []
digits (suc fuel) n =
    let rest = digits fuel (n / 10) in
    if ltb n 10 then (b'0' + n) ∷ [] else rest ++ (b'0' + n % 10) ∷ []

-- `%d`
unfoldable pub show_int : ℤ → List ℕ
unfolding digits
show_int (pos n) = digits 9 n
show_int (negsuc n) = b'-' ∷ digits 9 (n + 1)

pub str_eq_refl : (a : List ℕ) → str_eq a a ≡ true
unfolding str_eq
str_eq_refl [] = refl
str_eq_refl (c ∷ a) = rw (==_refl c) (str_eq_refl a)

pub str_eq_sound : (a b : List ℕ) → str_eq a b ≡ true → a ≡ b
unfolding str_eq
str_eq_sound [] [] e = refl
str_eq_sound [] (b ∷ bs) e = cc
str_eq_sound (a ∷ as') [] e = cc
str_eq_sound (a ∷ as') (b ∷ bs) e = elim (Bool-cases (a == b)) [
  | inl same ↦ ap₂ ◌∷◌ ((==_iff a b).0 same) (str_eq_sound as' bs (tail same))
  | inr other ↦ absurd (apart other)
]
  where
    tail : (a == b) ≡ true → str_eq as' bs ≡ true
    tail same = ground arith

    apart : (a == b) ≡ false → ⊥
    apart other = ground arith
