-- ===== src/Prelude/Options.antt =====
-- Chains of results that may fail.
use mathlib.Core.Path.{◌≡◌, refl}
use mathlib.Core.Option.{Option, none, some}

infixl 5 ◌>>=◌
abbrev pub ◌>>=◌ {ℓ κ} : {A : Type ℓ} {B : Type κ} → Option A → (A → Option B) → Option B
none >>= k = none
some a >>= k = k a

pub >>=-eq-some {ℓ κ} :
    {A : Type ℓ} {B : Type κ} (m : Option A) (k : A → Option B) (b : B)
    → (m >>= k) ≡ some b
    → (a : A) × (m ≡ some a) × (k a ≡ some b)
>>=-eq-some none k b e = absurd (elim-none e)
  where
    elim-none : none ≡ some b → ⊥
    elim-none q = cc
>>=-eq-some (some a) k b e = (a, refl, e)
