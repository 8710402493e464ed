-- ===== src/Crc16/Correct.antt =====
-- The table-driven loop against the bit-by-bit division.
use mathlib.Core.Path.{subst}
use native.Mathlib.Decide.{dec_lt}
use native.Mathlib.Nat.{pow-suc, one-le-pow, mod-eq_of_lt}
use uav_mission_server.Prelude.{
  ℕ, zero, suc, ◌+◌, ◌-◌, ◌*◌, ◌/◌, ◌%◌, ◌^◌, ◌≤◌, ◌<◌, ◌≡◌, refl, sym, ap, ap₂, ◌∙◌, some, arith,
  List, [], ◌∷◌, ◌++◌, length, get_elem?,
}
use uav_mission_server.Prelude.Bits.{
  bit_xor, bit_and, bit_xor_fields, bit_xor_lt, bit_xor_assoc, bit_xor_comm, zero-bit_xor,
  bit_xor_double, bit_xor-zero, bit_and_mask, bit_and_shift,
}
use uav_mission_server.Crc16.{crc16_tab, crc_step, crc_loop, crc16_calculate}
use uav_mission_server.Crc16.Reference.{shift_bit, shift_bits, feed_byte, crc_reference}
use uav_mission_server.Crc16.Table.{crc16_tab_lem}

abbrev polynomial : ℕ
polynomial = 0x1021

shift_bit_low : (x : ℕ) → x < 2 ^ 15 → shift_bit x ≡ 2 * x
unfolding shift_bit
shift_bit_low x h = ground arith

shift_bit_high : (z : ℕ) → z < 2 ^ 15 → shift_bit (2 ^ 15 + z) ≡ bit_xor (2 * z) polynomial
unfolding shift_bit
shift_bit_high z h = ground (arith, ap (λ t. bit_xor t polynomial) (carry_dropped z h))
  where
    carry_dropped : (z : ℕ) → z < 2 ^ 15 → 2 * (2 ^ 15 + z) % 2 ^ 16 ≡ 2 * z
    carry_dropped z h = omega arith

bit_xor_top : (z y : ℕ) → z < 2 ^ 15 → y < 2 ^ 15 → bit_xor (2 ^ 15 + z) y ≡ 2 ^ 15 + bit_xor z y
bit_xor_top z y hz hy = ap (bit_xor (2 ^ 15 + z)) (omega arith) ∙ bit_xor_fields 15 1 z 0 y hz hy

bit_xor_swap : (a b c : ℕ) → bit_xor (bit_xor a b) c ≡ bit_xor (bit_xor a c) b
bit_xor_swap a b c =
    bit_xor_assoc a b c ∙ ap (bit_xor a) (bit_xor_comm b c) ∙ sym (bit_xor_assoc a c b)

-- One division step is linear in a second register whose top bit is clear.
shift_bit-bit_xor_low :
    (x y : ℕ) → x < 2 ^ 15 → y < 2 ^ 15 → shift_bit (bit_xor x y) ≡ bit_xor (shift_bit x) (2 * y)
shift_bit-bit_xor_low x y hx hy =
    rw (shift_bit_low x hx, shift_bit_low (bit_xor x y) (bit_xor_lt 15 x y hx hy))
      (sym (bit_xor_double x y))

shift_bit-bit_xor_high :
    (z y : ℕ)
    → z < 2 ^ 15
    → y < 2 ^ 15
    → shift_bit (bit_xor (2 ^ 15 + z) y) ≡ bit_xor (shift_bit (2 ^ 15 + z)) (2 * y)
shift_bit-bit_xor_high z y hz hy =
    rw
      (
        bit_xor_top z y hz hy,
        shift_bit_high (bit_xor z y) (bit_xor_lt 15 z y hz hy),
        shift_bit_high z hz,
        ← bit_xor_double z y,
      )
      (bit_xor_swap (2 * z) (2 * y) polynomial)

shift_bit-bit_xor :
    (x y : ℕ) → x < 2 ^ 16 → y < 2 ^ 15 → shift_bit (bit_xor x y) ≡ bit_xor (shift_bit x) (2 * y)
shift_bit-bit_xor x y hx hy = elim (dec_lt x (2 ^ 15)) [
  | yes low ↦ shift_bit-bit_xor_low x y low hy
  | no high ↦
      subst (λ t. shift_bit (bit_xor t y) ≡ bit_xor (shift_bit t) (2 * y)) (omega arith)
        (shift_bit-bit_xor_high (x - 2 ^ 15) y (omega arith) hy)
]

pub shift_bit-lt : (x : ℕ) → x < 2 ^ 16 → shift_bit x < 2 ^ 16
unfolding shift_bit
shift_bit-lt x h = ground (arith, bit_xor_lt 16 (2 * x % 2 ^ 16) 0x1021 (omega arith) (omega arith))

mul-pow_suc : (x k : ℕ) → x * 2 ^ suc k ≡ 2 * (x * 2 ^ k)
mul-pow_suc x k = omega (arith, ap (λ (t : ℕ). x * t) (pow-suc 2 k))

le-mul-pow : (x k : ℕ) → x ≤ x * 2 ^ k
le-mul-pow x k = grind (arith, one-le-pow k 2)

-- `k` steps move a register of `16 - k` bits up by `k`.
shift_bits-bit_xor :
    (k x y : ℕ)
    → x < 2 ^ 16
    → y * 2 ^ k < 2 ^ 16
    → shift_bits k (bit_xor x y) ≡ bit_xor (shift_bits k x) (y * 2 ^ k)
unfolding shift_bits
shift_bits-bit_xor zero x y hx hy = ap (bit_xor x) (omega arith)
shift_bits-bit_xor (suc k) x y hx hy =
    rw (shift_bit-bit_xor x y hx (omega (arith, mul-pow_suc y k, le-mul-pow y k))) (
      shift_bits-bit_xor k (shift_bit x) (2 * y) (shift_bit-lt x hx)
        (omega (arith, mul-pow_suc y k))
      ∙ ap (bit_xor (shift_bits k (shift_bit x))) (omega (arith, mul-pow_suc y k)))

shift_bits-lt : (k x : ℕ) → x < 2 ^ 16 → shift_bits k x < 2 ^ 16
unfolding shift_bits
shift_bits-lt zero x h = h
shift_bits-lt (suc k) x h = shift_bits-lt k (shift_bit x) (shift_bit-lt x h)

-- The register with a byte added into its high half, as a high byte above a low byte.
register_fields :
    (h l byte : ℕ)
    → h < 2 ^ 8
    → l < 2 ^ 8
    → byte < 2 ^ 8
    → bit_xor (h * 2 ^ 8 + l) (byte * 2 ^ 8) ≡ bit_xor (bit_xor h byte * 2 ^ 8) l
register_fields h l byte hh hl hb =
    ap (bit_xor (h * 2 ^ 8 + l)) (omega arith)
    ∙ bit_xor_fields 8 h l byte 0 hl (omega arith)
    ∙ ap (λ t. bit_xor h byte * 2 ^ 8 + t) (bit_xor-zero l ∙ sym (zero-bit_xor l))
    ∙ ap (λ t. t * 2 ^ 8 + bit_xor 0 l) (sym (bit_xor-zero (bit_xor h byte)))
    ∙ sym (bit_xor_fields 8 (bit_xor h byte) 0 0 l (omega arith) hl)
    ∙ ap₂ bit_xor (omega arith) (omega arith)

feed_byte_fields :
    (h l byte : ℕ)
    → h < 2 ^ 8
    → l < 2 ^ 8
    → byte < 2 ^ 8
    → feed_byte (h * 2 ^ 8 + l) byte ≡ bit_xor (l * 2 ^ 8) (shift_bits 8 (bit_xor h byte * 2 ^ 8))
unfolding feed_byte
feed_byte_fields h l byte hh hl hb =
    ap (shift_bits 8) (register_fields h l byte hh hl hb)
    ∙ shift_bits-bit_xor 8 (bit_xor h byte * 2 ^ 8) l (omega (arith, bit_xor_lt 8 h byte hh hb))
        (omega arith)
    ∙ bit_xor_comm (shift_bits 8 (bit_xor h byte * 2 ^ 8)) (l * 2 ^ 8)

low_byte_up : (crc : ℕ) → bit_and (crc * 2 ^ 8) 0xff00 ≡ crc % 2 ^ 8 * 2 ^ 8
low_byte_up crc = bit_and_shift 8 crc 0xff ∙ ap (λ t. t * 2 ^ 8) (bit_and_mask 8 crc)

high_byte_down : (crc : ℕ) → crc < 2 ^ 16 → bit_and (crc / 2 ^ 8) 0xff ≡ crc / 2 ^ 8
high_byte_down crc h = bit_and_mask 8 (crc / 2 ^ 8) ∙ omega arith

-- A byte step of the code reads one entry, at the high byte of the register, and moves the low byte
-- up.
pub crc_step_entry :
    (crc byte : ℕ)
    → crc < 2 ^ 16
    → byte < 2 ^ 8
    → (x : ℕ) × (get_elem? crc16_tab (bit_xor (crc / 2 ^ 8) byte) ≡ some x)
      × (x < 2 ^ 16)
      × (feed_byte crc byte ≡ bit_xor (crc % 2 ^ 8 * 2 ^ 8) x)
      × (crc_step crc byte ≡ some (bit_xor (crc % 2 ^ 8 * 2 ^ 8) x))
unfolding crc_step
crc_step_entry crc byte hc hb = (x, found, fits, fed, stepped)
  where
    t : ℕ
    t = bit_xor (crc / 2 ^ 8) byte

    entry :
        (x : ℕ) × (get_elem? crc16_tab t ≡ some x) × (x ≡ shift_bits 8 (t * 2 ^ 8)) × (x < 2 ^ 16)
    entry = crc16_tab_lem t (bit_xor_lt 8 (crc / 2 ^ 8) byte (omega arith) hb)

    x : ℕ
    x = entry.0

    found : get_elem? crc16_tab t ≡ some x
    found = entry.1

    fits : x < 2 ^ 16
    fits = entry.3

    fed : feed_byte crc byte ≡ bit_xor (crc % 2 ^ 8 * 2 ^ 8) x
    fed =
        ap (λ r. feed_byte r byte) (omega arith)
        ∙ feed_byte_fields (crc / 2 ^ 8) (crc % 2 ^ 8) byte (omega arith) (omega arith) hb
        ∙ ap (bit_xor (crc % 2 ^ 8 * 2 ^ 8)) (sym entry.2)

    stepped : crc_step crc byte ≡ some (bit_xor (crc % 2 ^ 8 * 2 ^ 8) x)
    stepped =
        rw (high_byte_down crc hc, found, low_byte_up crc)
          (ap some (mod-eq_of_lt (bit_xor_lt 16 (crc % 2 ^ 8 * 2 ^ 8) x (omega arith) fits)))

pub feed_byte-lt : (crc byte : ℕ) → crc < 2 ^ 16 → byte < 2 ^ 8 → feed_byte crc byte < 2 ^ 16
feed_byte-lt crc byte hc hb =
    let (x, found, fits, fed, stepped) = crc_step_entry crc byte hc hb in
    rw fed (bit_xor_lt 16 (crc % 2 ^ 8 * 2 ^ 8) x (omega arith) fits)

-- `ptr` holds `uint8_t` values.
abbrev pub IsBytes : List ℕ → Type 0
IsBytes [] = Unit {0}
IsBytes (b ∷ bs) = (b < 2 ^ 8) × IsBytes bs

crc_loop-crc_reference :
    (crc : ℕ) (bytes rest : List ℕ)
    → crc < 2 ^ 16
    → IsBytes bytes
    → crc_loop (length bytes) crc (bytes ++ rest) ≡ some (crc_reference crc bytes)
unfolding crc_loop crc_reference
crc_loop-crc_reference crc [] rest hc hb = refl
crc_loop-crc_reference crc (b ∷ bs) rest hc hb =
    let (x, found, fits, fed, stepped) = crc_step_entry crc b hc hb.0 in
    rw (stepped, ← fed)
      (crc_loop-crc_reference (feed_byte crc b) bs rest (feed_byte-lt crc b hc hb.0) hb.1)

-- For every buffer of bytes, the table-driven CRC of its first `length bytes` bytes reads nothing
-- out of range and is the remainder of the bit-by-bit division; the bytes after them do not matter.
pub crc16_calculate-crc_reference :
    (bytes rest : List ℕ)
    → IsBytes bytes
    → crc16_calculate (bytes ++ rest) (length bytes) ≡ some (crc_reference 0 bytes)
unfolding crc16_calculate
crc16_calculate-crc_reference bytes rest h = crc_loop-crc_reference 0 bytes rest (omega arith) h
