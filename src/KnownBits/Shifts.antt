-- ===== src/KnownBits/Shifts.antt =====
-- `shl(size_t)` and `shr_u(size_t)` of `KnownBits::Bits`.
use native.Mathlib.Decide.{dec_lt}
use native.Mathlib.Nat.{div-le_self}
use metajit_cpp.Types.{IrType, type_mask, type_width}
use metajit_cpp.Types.Masks.{type_width-le, type_mask-lt, bit-type_mask_lt}
use metajit_cpp.KnownBits.{Bits, upper_bits, shl_below_64, shr_u_below_64}
use metajit_cpp.KnownBits.Contains.{
  Contains, known-Contains, agrees_at, and-type_mask_lt, value-lt_width,
}
use metajit_cpp.Word.Ops.{shl64, shr64}
use metajit_cpp.Word.Bits.{bit}
use metajit_cpp.Word.Mask.{bit_of_lt, bit-ones_ge}
use metajit_cpp.Word.Word64.{bit_laws, bit-shl64_lt, bit-shl64_ge, bit-shr64, low_ones, shr64-lt}
use metajit_cpp.Base.{ℕ, ◌+◌, ◌-◌, ◌<◌, ◌^◌, bit_and, ◌≡◌, ap, arith}

-- The bits that a shift to the right leaves free.
pub bit-upper_bits :
    (t : IrType) (s i : ℕ)
    → i < type_width t
    → bit (upper_bits t s) i ≡ 1 - bit (type_mask t) (s + i)
unfolding upper_bits
bit-upper_bits t s i p = omega (
  bit_laws,
  bit-type_mask_lt t i p,
  bit-shr64 (type_mask t) s i,
  shr64-lt (type_mask t) s (type_mask-lt t),
  type_width-le t,
)

pub shr64-lt_width : {n : ℕ} (x s : ℕ) → x < n → shr64 x s < n
unfolding shr64
shr64-lt_width x s h = omega (arith, div-le_self x (2 ^ s))

module _ (b : Bits) (v : ℕ) (c : Contains b v) (s : ℕ) (fits : s < 64) where
  pub shl-Contains : Contains (shl_below_64 b s) (bit_and (shl64 v s) (type_mask b.ty))
  unfolding shl_below_64
  shl-Contains = known-Contains b.ty _ _ _ (and-type_mask_lt b.ty (shl64 v s)) λ i p h.
      let q : i < 64 = omega (arith, type_width-le b.ty) in
      elim (dec_lt i s) [
        | yes l ↦ omega (bit_laws, bit-shl64_lt v s i l q, bit-shl64_lt b.value s i l q)
        | no l ↦ omega (
          bit_laws,
          agrees_at b v c (i - s),
          bit-shl64_ge v s i (omega arith) q,
          bit-shl64_ge b.value s i (omega arith) q,
          bit-shl64_ge b.mask s i (omega arith) q,
          bit-ones_ge s i (omega arith),
          ap (λ (t : ℕ). bit t i) (low_ones s fits),
        )
      ]

  pub shr_u-Contains : Contains (shr_u_below_64 b s) (shr64 v s)
  unfolding shr_u_below_64
  shr_u-Contains = known-Contains b.ty _ _ _ (shr64-lt_width v s c.typed) λ i p h.
      elim (dec_lt (s + i) (type_width b.ty)) [
        | yes l ↦ omega (
          bit_laws,
          agrees_at b v c (s + i),
          bit-shr64 v s i,
          bit-shr64 b.value s i,
          bit-shr64 b.mask s i,
          bit-upper_bits b.ty s i p,
          bit-type_mask_lt b.ty (s + i) l,
        )
        | no l ↦ omega (
          bit_laws,
          bit-shr64 v s i,
          bit-shr64 b.value s i,
          bit_of_lt (type_width b.ty) v (s + i) c.typed (omega arith),
          bit_of_lt (type_width b.ty) b.value (s + i) (value-lt_width b v c) (omega arith),
        )
      ]
