-- ===== src/Prelude/Outcomes.antt =====
-- Results of code that may call `exit`, or leave what C defines.
use mathlib.Core.Path.{◌≡◌, refl}

-- `fault` stands for a NULL or a dangling pointer used, or memory outside an object.
pub data Outcome {ℓ} (A : Type ℓ) : Type ℓ where
  ok : A → Outcome A
  exited : Outcome A
  fault : Outcome A

infixl 5 ◌>>=◌
abbrev pub ◌>>=◌ {ℓ κ} : {A : Type ℓ} {B : Type κ} → Outcome A → (A → Outcome B) → Outcome B
ok a >>= k = k a
exited >>= k = exited
fault >>= k = fault

pub >>=-eq-ok {ℓ κ} :
    {A : Type ℓ} {B : Type κ} (m : Outcome A) (k : A → Outcome B) (b : B)
    → (m >>= k) ≡ ok b
    → (a : A) × (m ≡ ok a) × (k a ≡ ok b)
>>=-eq-ok (ok a) k b e = (a, refl, e)
>>=-eq-ok {A} exited k b e = absurd (differ e)
  where
    differ : exited ≡ ok b → ⊥
    differ q = cc
>>=-eq-ok fault k b e = absurd (differ e)
  where
    differ : fault ≡ ok b → ⊥
    differ q = cc

pub ok_injective {ℓ} : {A : Type ℓ} {a b : A} → ok a ≡ ok b → a ≡ b
ok_injective e = cc

pub bind_assoc {ℓ} :
    {A B C : Type ℓ} (m : Outcome A) (f : A → Outcome B) (g : B → Outcome C)
    → (m >>= f >>= g) ≡ (m >>= λ a. f a >>= g)
bind_assoc (ok a) f g = refl
bind_assoc exited f g = refl
bind_assoc fault f g = refl

pub bind_same {ℓ} :
    {A B : Type ℓ} (m : Outcome A) (f g : A → Outcome B)
    → ((a : A) → f a ≡ g a)
    → (m >>= f) ≡ (m >>= g)
bind_same (ok a) f g h = h a
bind_same exited f g h = refl
bind_same fault f g h = refl
