-- ===== src/KnownBits/Resizes.antt =====
-- `resize_u` and `resize_x` of `KnownBits::Bits`.
use metajit_cpp.Types.{IrType, type_mask, type_width}
use metajit_cpp.Types.Masks.{type_width-le, type_mask-lt, bit-type_mask_lt, bit-type_mask_ge}
use metajit_cpp.KnownBits.{Bits, resize_u, resize_x}
use metajit_cpp.KnownBits.Contains.{Contains, known-Contains, agrees_at, and-type_mask_lt}
use metajit_cpp.Word.Mask.{bit_of_lt}
use metajit_cpp.Word.Word64.{bit_laws}
use native.Mathlib.Decide.{dec_lt}
use metajit_cpp.Base.{ℕ, bit_and, arith}

module _ (b : Bits) (v : ℕ) (c : Contains b v) (to : IrType) where
  pub resize_u-Contains : Contains (resize_u b to) (bit_and v (type_mask to))
  unfolding resize_u
  resize_u-Contains = known-Contains to _ _ _ (and-type_mask_lt to v) λ i p h.
      elim (dec_lt i (type_width b.ty)) [
        | yes q ↦ omega (
          bit_laws,
          agrees_at b v c i,
          bit-type_mask_lt to i p,
          bit-type_mask_lt b.ty i q,
          type_mask-lt b.ty,
          type_width-le to,
        )
        | no q ↦ omega (
          bit_laws,
          bit_of_lt (type_width b.ty) v i c.typed (omega arith),
          bit-type_mask_ge b.ty i (omega arith),
        )
      ]

  pub resize_x-Contains : Contains (resize_x b to) (bit_and v (type_mask to))
  unfolding resize_x
  resize_x-Contains =
      known-Contains to _ _ _ (and-type_mask_lt to v)
        λ i p h. omega (bit_laws, agrees_at b v c i, bit-type_mask_lt to i p)
