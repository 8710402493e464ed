-- ===== src/Crc16/Detects.antt =====
-- Error detection: what the CRC tells apart.

use mathlib.Core.List.{append-nil}
use uav_mission_server.Prelude.{
  ℕ, ◌+◌, ◌*◌, ◌/◌, ◌%◌, ◌^◌, ◌<◌, ◌≡◌, ◌≢◌, sym, ap, ap₂, ◌∙◌, some, arith, List, [], ◌∷◌, ◌++◌,
  length, get_elem?, some_injective,
}
use uav_mission_server.Prelude.Bits.{
  bit_xor, bit_xor_fields, bit_xor_lt, bit_xor_comm, zero-bit_xor, bit_xor_cancel,
}
use uav_mission_server.Crc16.{crc16_tab, crc16_calculate}
use uav_mission_server.Crc16.Reference.{feed_byte, crc_reference}
use uav_mission_server.Crc16.Table.{low_byte_injective}
use uav_mission_server.Crc16.Correct.{
  crc_step_entry, feed_byte-lt, IsBytes, crc16_calculate-crc_reference,
}

bit_xor-low_byte : (l x : ℕ) → bit_xor (l * 2 ^ 8) x % 2 ^ 8 ≡ x % 2 ^ 8
bit_xor-low_byte l x = omega (
  arith,
  ap₂ bit_xor (padded l) (split x),
  bit_xor_fields 8 l 0 (x / 2 ^ 8) (x % 2 ^ 8) (omega arith) (omega arith),
  zero-bit_xor (x % 2 ^ 8),
)
  where
    padded : (l : ℕ) → l * 2 ^ 8 ≡ l * 2 ^ 8 + 0
    padded l = omega arith

    split : (x : ℕ) → x ≡ x / 2 ^ 8 * 2 ^ 8 + x % 2 ^ 8
    split x = omega arith

bit_xor_injective : (a b c : ℕ) → bit_xor a b ≡ bit_xor a c → b ≡ c
bit_xor_injective a b c e = sym (bit_xor_cancel a b) ∙ ap (bit_xor a) e ∙ bit_xor_cancel a c

bit_xor_injective_left : (a b c : ℕ) → bit_xor a c ≡ bit_xor b c → a ≡ b
bit_xor_injective_left a b c e = bit_xor_injective c a b (bit_xor_comm c a ∙ e ∙ bit_xor_comm b c)

-- A byte step forgets nothing: its result fixes the low byte of the register and the entry read.
feed_byte_fixes :
    (c c' b b' : ℕ)
    → c < 2 ^ 16
    → c' < 2 ^ 16
    → b < 2 ^ 8
    → b' < 2 ^ 8
    → feed_byte c b ≡ feed_byte c' b'
    → (bit_xor (c / 2 ^ 8) b ≡ bit_xor (c' / 2 ^ 8) b') × (c % 2 ^ 8 ≡ c' % 2 ^ 8)
feed_byte_fixes c c' b b' hc hc' hb hb' e = (same_entry, same_low)
  where
    one :
        (x : ℕ) × (get_elem? crc16_tab (bit_xor (c / 2 ^ 8) b) ≡ some x)
        × (feed_byte c b ≡ bit_xor (c % 2 ^ 8 * 2 ^ 8) x)
    one = let s = crc_step_entry c b hc hb in (s.0, s.1, s.3)

    two :
        (x : ℕ) × (get_elem? crc16_tab (bit_xor (c' / 2 ^ 8) b') ≡ some x)
        × (feed_byte c' b' ≡ bit_xor (c' % 2 ^ 8 * 2 ^ 8) x)
    two = let s = crc_step_entry c' b' hc' hb' in (s.0, s.1, s.3)

    equal : bit_xor (c % 2 ^ 8 * 2 ^ 8) one.0 ≡ bit_xor (c' % 2 ^ 8 * 2 ^ 8) two.0
    equal = sym one.2 ∙ e ∙ two.2

    same_entry : bit_xor (c / 2 ^ 8) b ≡ bit_xor (c' / 2 ^ 8) b'
    same_entry =
        low_byte_injective (bit_xor (c / 2 ^ 8) b) (bit_xor (c' / 2 ^ 8) b') one.0 two.0
          (bit_xor_lt 8 (c / 2 ^ 8) b (omega arith) hb)
          (bit_xor_lt 8 (c' / 2 ^ 8) b' (omega arith) hb') one.1 two.1
          (sym (bit_xor-low_byte (c % 2 ^ 8) one.0)
            ∙ ap (λ t. t % 2 ^ 8) equal
            ∙ bit_xor-low_byte (c' % 2 ^ 8) two.0)

    same_value : one.0 ≡ two.0
    same_value = some_injective (sym one.1 ∙ ap (get_elem? crc16_tab) same_entry ∙ two.1)

    same_low : c % 2 ^ 8 ≡ c' % 2 ^ 8
    same_low =
        let scaled : c % 2 ^ 8 * 2 ^ 8 ≡ c' % 2 ^ 8 * 2 ^ 8 =
          bit_xor_injective_left (c % 2 ^ 8 * 2 ^ 8) (c' % 2 ^ 8 * 2 ^ 8) one.0
            (equal ∙ ap (bit_xor (c' % 2 ^ 8 * 2 ^ 8)) (sym same_value)) in
        omega arith

-- Other register, same byte: another register. Same register, other byte: another register.
feed_byte_injective :
    (c c' b : ℕ) → c < 2 ^ 16 → c' < 2 ^ 16 → b < 2 ^ 8 → feed_byte c b ≡ feed_byte c' b → c ≡ c'
feed_byte_injective c c' b hc hc' hb e =
    let (high, low) = feed_byte_fixes c c' b b hc hc' hb hb e in
    let same_high : c / 2 ^ 8 ≡ c' / 2 ^ 8 =
      bit_xor_injective_left (c / 2 ^ 8) (c' / 2 ^ 8) b high in
    omega arith

feed_byte_injective_byte :
    (c b b' : ℕ) → c < 2 ^ 16 → b < 2 ^ 8 → b' < 2 ^ 8 → feed_byte c b ≡ feed_byte c b' → b ≡ b'
feed_byte_injective_byte c b b' hc hb hb' e =
    bit_xor_injective (c / 2 ^ 8) b b' (feed_byte_fixes c c b b' hc hc hb hb' e).0

pub crc_reference-lt :
    (c : ℕ) (bytes : List ℕ) → c < 2 ^ 16 → IsBytes bytes → crc_reference c bytes < 2 ^ 16
unfolding crc_reference
crc_reference-lt c [] hc h = hc
crc_reference-lt c (b ∷ bs) hc h = crc_reference-lt (feed_byte c b) bs (feed_byte-lt c b hc h.0) h.1

crc_reference_injective :
    (c c' : ℕ) (bytes : List ℕ)
    → c < 2 ^ 16
    → c' < 2 ^ 16
    → IsBytes bytes
    → crc_reference c bytes ≡ crc_reference c' bytes
    → c ≡ c'
unfolding crc_reference
crc_reference_injective c c' [] hc hc' h e = e
crc_reference_injective c c' (b ∷ bs) hc hc' h e = feed_byte_injective c c' b hc hc' h.0 (
    crc_reference_injective (feed_byte c b) (feed_byte c' b) bs (feed_byte-lt c b hc h.0)
      (feed_byte-lt c' b hc' h.0) h.1 e)

-- From one register on, two messages that differ in one byte leave different registers.
pub crc_reference_detects :
    (c : ℕ) (front : List ℕ) (a b : ℕ) (back : List ℕ)
    → c < 2 ^ 16
    → IsBytes front
    → a < 2 ^ 8
    → b < 2 ^ 8
    → IsBytes back
    → crc_reference c (front ++ a ∷ back) ≡ crc_reference c (front ++ b ∷ back)
    → a ≡ b
unfolding crc_reference
crc_reference_detects c [] a b back hc hf ha hb hr e = feed_byte_injective_byte c a b hc ha hb (
    crc_reference_injective (feed_byte c a) (feed_byte c b) back (feed_byte-lt c a hc ha)
      (feed_byte-lt c b hc hb) hr e)
crc_reference_detects c (f ∷ fs) a b back hc hf ha hb hr e =
    crc_reference_detects (feed_byte c f) fs a b back (feed_byte-lt c f hc hf.0) hf.1 ha hb hr e

pub IsBytes-replace :
    (front : List ℕ) (a : ℕ) (back : List ℕ)
    → IsBytes front
    → a < 2 ^ 8
    → IsBytes back
    → IsBytes (front ++ a ∷ back)
IsBytes-replace [] a back hf ha hr = (ha, hr)
IsBytes-replace (f ∷ fs) a back hf ha hr = (hf.0, IsBytes-replace fs a back hf.1 ha hr)

crc16_calculate_whole :
    (bytes : List ℕ)
    → IsBytes bytes
    → crc16_calculate bytes (length bytes) ≡ some (crc_reference 0 bytes)
crc16_calculate_whole bytes h =
    ap (λ t. crc16_calculate t (length bytes)) (sym (append-nil bytes))
    ∙ crc16_calculate-crc_reference bytes [] h

-- A buffer of bytes in which one byte was replaced by another byte has another CRC over its whole
-- length: every corruption of a single byte is detected.
pub crc16_calculate_detects :
    (front : List ℕ) (a b : ℕ) (back : List ℕ)
    → IsBytes front
    → a < 2 ^ 8
    → b < 2 ^ 8
    → IsBytes back
    → a ≢ b
    → let sent = front ++ a ∷ back in
      let got = front ++ b ∷ back in
      crc16_calculate sent (length sent) ≢ crc16_calculate got (length got)
crc16_calculate_detects front a b back hf ha hb hr ne e = ne (
    crc_reference_detects 0 front a b back (omega arith) hf ha hb hr (
      some_injective (
        sym (crc16_calculate_whole (front ++ a ∷ back) (IsBytes-replace front a back hf ha hr))
        ∙ e
        ∙ crc16_calculate_whole (front ++ b ∷ back) (IsBytes-replace front b back hf hb hr))))
