-- ===== src/Word.antt =====
-- uint64_t arithmetic of C++ over the native numbers, and the single bits of a number.
pub mod Ops
pub mod Step
pub mod Bits
pub mod Mask
pub mod Laws
pub mod Carry
pub mod Word64
pub mod Signed
pub mod SignBits
