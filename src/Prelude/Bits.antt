-- ===== src/Prelude/Bits.antt =====
-- Laws of the bit operations of C on numbers of any size.
mod Digits
mod Powers
mod Xor
mod And
pub use Prim.Native.Nat.{bit_xor, bit_and}
pub use Xor.*
pub use And.*
