-- ===== src/Serial/Complete.antt =====
-- `serial_write` writes everything or says that it did not.
use uav_mission_server.Prelude.{
  ℕ, zero, suc, ◌+◌, ◌≤◌, ◌<◌, ◌≡◌, refl, sym, ap, ◌∙◌, inl, inr, arith, List, [], ◌∷◌, ◌++◌,
  Option, none, some, length, take, drop, ◌==◌, ==_iff, Bool-cases,
}
use mathlib.Core.Path.{subst}
use uav_mission_server.Serial.{Writing, complete, failed, pending, write_all, serial_write}

-- The contract of `write` behind `written` of `len` bytes: a call that does not fail takes at least
-- one byte and no more than it was given.
abbrev pub Honest : ℕ → ℕ → List (Option ℕ) → Type 0
Honest len written [] = Unit {0}
Honest len written (none ∷ results) = Unit {0}
Honest len written (some w ∷ results) =
    (1 ≤ w) × (written + w ≤ len) × Honest len (written + w) results

-- Everything was written, or a call failed and only a part was.
abbrev pub Written : List ℕ → Writing → Type 0
Written buf (complete out) = out ≡ buf
Written buf (failed out) = (n : ℕ) × (n < length buf) × (out ≡ take n buf)
Written buf pending = ⊥

take_none : {A : Type 0} (n : ℕ) → take {A = A} n [] ≡ []
take_none zero = refl
take_none (suc n) = refl

-- A prefix and what follows it make a longer prefix.
pub take-drop-take :
    {A : Type 0} (m n : ℕ) (xs : List A) → take m xs ++ take n (drop m xs) ≡ take (m + n) xs
take-drop-take zero n xs = let same : n ≡ 0 + n = omega arith in ap (λ k. take k xs) same
take-drop-take (suc m) n [] = take_none n ∙ sym (take_none (suc m + n))
take-drop-take (suc m) n (x ∷ xs) =
    let moved : suc (m + n) ≡ suc m + n = omega arith in
    ap (x ∷◌) (take-drop-take m n xs) ∙ ap (λ k. take k (x ∷ xs)) moved

take_all : {A : Type 0} (xs : List A) → take (length xs) xs ≡ xs
take_all [] = refl
take_all (x ∷ xs) = ap (x ∷◌) (take_all xs)

write_all-Written :
    (results : List (Option ℕ)) (buf : List ℕ) (written : ℕ)
    → Honest (length buf) written results
    → written < length buf
    → length buf ≤ written + length results
    → Written buf (write_all results buf written (take written buf))
unfolding write_all
write_all-Written [] buf written h lt enough = omega arith
write_all-Written (none ∷ results) buf written h lt enough = (written, lt, refl)
write_all-Written (some w ∷ results) buf written h lt enough =
    elim (Bool-cases (written + w == length buf)) [
      | inl all ↦
          rw all (
            take-drop-take written w buf ∙ ap (λ k. take k buf) ((==_iff _ _).0 all) ∙ take_all buf)
      | inr more ↦ rw more (
          subst (λ out. Written buf (write_all results buf (written + w) out))
            (sym (take-drop-take written w buf))
            (write_all-Written results buf (written + w) h.2 (ground arith) (omega arith)))
    ]

-- When `write` keeps its contract and there is a byte to write and a result for each, `serial_write`
-- returns: it reports success, and every byte has gone out, once and in order; or it reports a
-- failure, and a shorter prefix has gone out.
pub serial_write-Written :
    (results : List (Option ℕ)) (buf : List ℕ)
    → Honest (length buf) 0 results
    → 0 < length buf
    → length buf ≤ length results
    → Written buf (serial_write results buf)
unfolding serial_write
serial_write-Written results buf h lt enough = write_all-Written results buf 0 h lt (omega arith)
