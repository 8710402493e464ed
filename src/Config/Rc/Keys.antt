-- ===== src/Config/Rc/Keys.antt =====
-- The keys of the radio channels: each finds its channel and its field.
use mathlib.Core.Path.{subst}
use uav_mission_server.Prelude.{
  ℕ, zero, suc, ◌≤◌, ◌≡◌, inl, inr, refl, sym, ap, arith, false, some, ◌==◌, ==_iff, Bool-cases,
}
use uav_mission_server.Prelude.Libc.{str_eq}
use uav_mission_server.Config.Rc.{
  Field, min_field, mid_field, max_field, reverse_field, channel_key, find_channel, rc_setter,
  rc_params,
}

Found : (n : ℕ) (field : Field) → Type 0
Found n field = find_channel 18 1 (channel_key n field) ≡ some (n, field)

-- The keys of one channel.
abbrev FindsAll : ℕ → Type 0
FindsAll n = Found n min_field × Found n mid_field × Found n max_field × Found n reverse_field

AllFound : (k : ℕ) → Type 0
unfolding Found
AllFound zero = Unit
AllFound (suc k) = FindsAll (suc k) × AllFound k

all_eighteen : AllFound 18
unfolding AllFound Found str_eq
all_eighteen = (
  (refl, refl, refl, refl),
  (
    (refl, refl, refl, refl),
    (
      (refl, refl, refl, refl),
      (
        (refl, refl, refl, refl),
        (
          (refl, refl, refl, refl),
          (
            (refl, refl, refl, refl),
            (
              (refl, refl, refl, refl),
              (
                (refl, refl, refl, refl),
                (
                  (refl, refl, refl, refl),
                  (
                    (refl, refl, refl, refl),
                    (
                      (refl, refl, refl, refl),
                      (
                        (refl, refl, refl, refl),
                        (
                          (refl, refl, refl, refl),
                          (
                            (refl, refl, refl, refl),
                            (
                              (refl, refl, refl, refl),
                              (
                                (refl, refl, refl, refl),
                                ((refl, refl, refl, refl), ((refl, refl, refl, refl), tt)),
                              ),
                            ),
                          ),
                        ),
                      ),
                    ),
                  ),
                ),
              ),
            ),
          ),
        ),
      ),
    ),
  ),
)

below : (n k : ℕ) → n ≤ suc k → (n == suc k) ≡ false → n ≤ k
below n k h apart = ground arith

one_of : (k n : ℕ) (field : Field) → 1 ≤ n → n ≤ k → AllFound k → Found n field
unfolding AllFound
one_of zero n field low high all = absurd (omega arith)
one_of (suc k) n field low high all = elim (Bool-cases (n == suc k)) [
  | inl same ↦ subst (λ m. Found m field) (sym ((==_iff n (suc k)).0 same)) (pick field all.0)
  | inr apart ↦ one_of k n field low (below n k high apart) all.1
]
  where
    pick : (f : Field) → FindsAll (suc k) → Found (suc k) f
    pick min_field h = h.0
    pick mid_field h = h.1
    pick max_field h = h.2
    pick reverse_field h = h.3

pub chooses :
    (n : ℕ) (field : Field)
    → 1 ≤ n
    → n ≤ 18
    → rc_params (channel_key n field) ≡ rc_setter (some (n, field))
unfolding rc_params Found
chooses n field low high = ap rc_setter (one_of 18 n field low high all_eighteen)
