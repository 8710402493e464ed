-- ===== src/Crc16/Table.antt =====
-- The table: each entry is eight steps of the polynomial division, and its low bytes are a
-- permutation.
use uav_mission_server.Prelude.{
  ℕ, zero, suc, ◌+◌, ◌*◌, ◌%◌, ◌^◌, ◌<◌, ◌≡◌, refl, sym, ap, ◌∙◌, Bool, true, ◌&&◌, some, arith,
  List, [], ◌∷◌, length, get_elem?, get_or, ltb, ◌==◌,
}
use mathlib.Core.Path.{subst}
use native.Mathlib.Nat.{zero-add, add-zero}
use uav_mission_server.Crc16.{crc16_tab}
use uav_mission_server.Crc16.Reference.{shift_bit, shift_bits}

-- Every entry from position `i` on passes a test of its position.
abbrev entries_pass : (ℕ → ℕ → Bool) → ℕ → List ℕ → Bool
entries_pass p i [] = true
entries_pass p i (x ∷ xs) = p i x && entries_pass p (suc i) xs

entries_pass_at :
    (p : ℕ → ℕ → Bool) (i : ℕ) (xs : List ℕ) (j : ℕ)
    → entries_pass p i xs ≡ true
    → j < length xs
    → (x : ℕ) × (get_elem? xs j ≡ some x) × (p (i + j) x ≡ true)
entries_pass_at p i [] j h lt = absurd (omega arith)
entries_pass_at p i (x ∷ xs) zero h lt = (x, refl, rw add-zero (ground arith))
entries_pass_at p i (x ∷ xs) (suc j) h lt =
    let (y, found, holds) = entries_pass_at p (suc i) xs j (ground arith) (omega arith) in
    (y, found, subst (λ n. p n y ≡ true) (omega arith) holds)

length-crc16_tab : length crc16_tab ≡ 256
unfolding crc16_tab
length-crc16_tab = refl

is_entry : ℕ → ℕ → Bool
is_entry t x = shift_bits 8 (t * 2 ^ 8) == x && ltb x (2 ^ 16)

table_entries : entries_pass is_entry 0 crc16_tab ≡ true
unfolding is_entry crc16_tab shift_bit shift_bits
table_entries = refl

-- Entry `t` of the table is what eight division steps make of `t` in the high byte.
pub crc16_tab_lem :
    (t : ℕ)
    → t < 256
    → (x : ℕ) × (get_elem? crc16_tab t ≡ some x) × (x ≡ shift_bits 8 (t * 2 ^ 8)) × (x < 2 ^ 16)
unfolding is_entry
crc16_tab_lem t h =
    let (x, found, holds) =
      entries_pass_at is_entry 0 crc16_tab t table_entries (rw length-crc16_tab h) in
    (x, found, ground (arith, zero-add t), ground arith)

-- The position of the entry with a given low byte.
low_positions : List ℕ
low_positions =
    0x00 ∷ 0x23 ∷ 0x46 ∷ 0x65 ∷ 0x8c ∷ 0xaf ∷ 0xca ∷ 0xe9 ∷ 0x08 ∷ 0x2b ∷ 0x4e ∷ 0x6d ∷ 0x84 ∷ 0xa7
    ∷ 0xc2 ∷ 0xe1 ∷ 0x11 ∷ 0x32 ∷ 0x57 ∷ 0x74 ∷ 0x9d ∷ 0xbe ∷ 0xdb ∷ 0xf8 ∷ 0x19 ∷ 0x3a ∷ 0x5f
    ∷ 0x7c ∷ 0x95 ∷ 0xb6 ∷ 0xd3 ∷ 0xf0 ∷ 0x22 ∷ 0x01 ∷ 0x64 ∷ 0x47 ∷ 0xae ∷ 0x8d ∷ 0xe8 ∷ 0xcb
    ∷ 0x2a ∷ 0x09 ∷ 0x6c ∷ 0x4f ∷ 0xa6 ∷ 0x85 ∷ 0xe0 ∷ 0xc3 ∷ 0x33 ∷ 0x10 ∷ 0x75 ∷ 0x56 ∷ 0xbf
    ∷ 0x9c ∷ 0xf9 ∷ 0xda ∷ 0x3b ∷ 0x18 ∷ 0x7d ∷ 0x5e ∷ 0xb7 ∷ 0x94 ∷ 0xf1 ∷ 0xd2 ∷ 0x44 ∷ 0x67
    ∷ 0x02 ∷ 0x21 ∷ 0xc8 ∷ 0xeb ∷ 0x8e ∷ 0xad ∷ 0x4c ∷ 0x6f ∷ 0x0a ∷ 0x29 ∷ 0xc0 ∷ 0xe3 ∷ 0x86
    ∷ 0xa5 ∷ 0x55 ∷ 0x76 ∷ 0x13 ∷ 0x30 ∷ 0xd9 ∷ 0xfa ∷ 0x9f ∷ 0xbc ∷ 0x5d ∷ 0x7e ∷ 0x1b ∷ 0x38
    ∷ 0xd1 ∷ 0xf2 ∷ 0x97 ∷ 0xb4 ∷ 0x66 ∷ 0x45 ∷ 0x20 ∷ 0x03 ∷ 0xea ∷ 0xc9 ∷ 0xac ∷ 0x8f ∷ 0x6e
    ∷ 0x4d ∷ 0x28 ∷ 0x0b ∷ 0xe2 ∷ 0xc1 ∷ 0xa4 ∷ 0x87 ∷ 0x77 ∷ 0x54 ∷ 0x31 ∷ 0x12 ∷ 0xfb ∷ 0xd8
    ∷ 0xbd ∷ 0x9e ∷ 0x7f ∷ 0x5c ∷ 0x39 ∷ 0x1a ∷ 0xf3 ∷ 0xd0 ∷ 0xb5 ∷ 0x96 ∷ 0x88 ∷ 0xab ∷ 0xce
    ∷ 0xed ∷ 0x04 ∷ 0x27 ∷ 0x42 ∷ 0x61 ∷ 0x80 ∷ 0xa3 ∷ 0xc6 ∷ 0xe5 ∷ 0x0c ∷ 0x2f ∷ 0x4a ∷ 0x69
    ∷ 0x99 ∷ 0xba ∷ 0xdf ∷ 0xfc ∷ 0x15 ∷ 0x36 ∷ 0x53 ∷ 0x70 ∷ 0x91 ∷ 0xb2 ∷ 0xd7 ∷ 0xf4 ∷ 0x1d
    ∷ 0x3e ∷ 0x5b ∷ 0x78 ∷ 0xaa ∷ 0x89 ∷ 0xec ∷ 0xcf ∷ 0x26 ∷ 0x05 ∷ 0x60 ∷ 0x43 ∷ 0xa2 ∷ 0x81
    ∷ 0xe4 ∷ 0xc7 ∷ 0x2e ∷ 0x0d ∷ 0x68 ∷ 0x4b ∷ 0xbb ∷ 0x98 ∷ 0xfd ∷ 0xde ∷ 0x37 ∷ 0x14 ∷ 0x71
    ∷ 0x52 ∷ 0xb3 ∷ 0x90 ∷ 0xf5 ∷ 0xd6 ∷ 0x3f ∷ 0x1c ∷ 0x79 ∷ 0x5a ∷ 0xcc ∷ 0xef ∷ 0x8a ∷ 0xa9
    ∷ 0x40 ∷ 0x63 ∷ 0x06 ∷ 0x25 ∷ 0xc4 ∷ 0xe7 ∷ 0x82 ∷ 0xa1 ∷ 0x48 ∷ 0x6b ∷ 0x0e ∷ 0x2d ∷ 0xdd
    ∷ 0xfe ∷ 0x9b ∷ 0xb8 ∷ 0x51 ∷ 0x72 ∷ 0x17 ∷ 0x34 ∷ 0xd5 ∷ 0xf6 ∷ 0x93 ∷ 0xb0 ∷ 0x59 ∷ 0x7a
    ∷ 0x1f ∷ 0x3c ∷ 0xee ∷ 0xcd ∷ 0xa8 ∷ 0x8b ∷ 0x62 ∷ 0x41 ∷ 0x24 ∷ 0x07 ∷ 0xe6 ∷ 0xc5 ∷ 0xa0
    ∷ 0x83 ∷ 0x6a ∷ 0x49 ∷ 0x2c ∷ 0x0f ∷ 0xff ∷ 0xdc ∷ 0xb9 ∷ 0x9a ∷ 0x73 ∷ 0x50 ∷ 0x35 ∷ 0x16
    ∷ 0xf7 ∷ 0xd4 ∷ 0xb1 ∷ 0x92 ∷ 0x7b ∷ 0x58 ∷ 0x3d ∷ 0x1e ∷ []

is_position : ℕ → ℕ → Bool
is_position t x = get_or low_positions (x % 2 ^ 8) 0 == t

table_positions : entries_pass is_position 0 crc16_tab ≡ true
unfolding is_position crc16_tab low_positions
table_positions = refl

position_of_low_byte :
    (t x : ℕ) → t < 256 → get_elem? crc16_tab t ≡ some x → get_or low_positions (x % 2 ^ 8) 0 ≡ t
unfolding is_position
position_of_low_byte t x h e =
    let (y, found, holds) =
      entries_pass_at is_position 0 crc16_tab t table_positions (rw length-crc16_tab h) in
    ground (arith, zero-add t)

-- Two entries with one low byte stand at one position.
pub low_byte_injective :
    (s t x y : ℕ)
    → s < 256
    → t < 256
    → get_elem? crc16_tab s ≡ some x
    → get_elem? crc16_tab t ≡ some y
    → x % 2 ^ 8 ≡ y % 2 ^ 8
    → s ≡ t
low_byte_injective s t x y hs ht ex ey e =
    sym (position_of_low_byte s x hs ex)
    ∙ ap (λ b. get_or low_positions b 0) e
    ∙ position_of_low_byte t y ht ey
