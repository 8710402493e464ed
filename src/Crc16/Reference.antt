-- ===== src/Crc16/Reference.antt =====
-- The CRC that crc16.c computes, as its definition has it: division of the message, as a polynomial
-- over bits, by x^16 + x^12 + x^5 + 1, one bit at a time, with the register starting at 0.
use uav_mission_server.Prelude.{ℕ, zero, suc, ◌*◌, ◌%◌, ◌^◌, List, [], ◌∷◌, ltb, if◌then◌else◌}
use uav_mission_server.Prelude.Bits.{bit_xor}

-- Shift one bit out of the 16-bit register, and subtract the polynomial if the bit was set.
unfoldable pub shift_bit : ℕ → ℕ
shift_bit r = if ltb r (2 ^ 15) then 2 * r else bit_xor (2 * r % 2 ^ 16) 0x1021

unfoldable pub shift_bits : ℕ → ℕ → ℕ
shift_bits zero r = r
shift_bits (suc k) r = shift_bits k (shift_bit r)

unfoldable pub feed_byte : ℕ → ℕ → ℕ
unfolding shift_bits
feed_byte r byte = shift_bits 8 (bit_xor r (byte * 2 ^ 8))

unfoldable pub crc_reference : ℕ → List ℕ → ℕ
crc_reference r [] = r
crc_reference r (byte ∷ bytes) = crc_reference (feed_byte r byte) bytes
