-- ===== src/KnownBits/Bitwise.antt =====
-- `operator&`, `operator|` and `operator^` of `KnownBits::Bits`.
use metajit_cpp.Types.{type_width}
use metajit_cpp.Types.Masks.{type_width-le}
use metajit_cpp.KnownBits.{Bits, and_bits, or_bits, xor_bits}
use metajit_cpp.KnownBits.Contains.{Contains, known-Contains, agrees_at, value-lt}
use metajit_cpp.Word.Word64.{bit_laws}
use metajit_cpp.Word.Mask.{and-lt_left, or-lt, xor-lt}
use metajit_cpp.Base.{ℕ, ◌<◌, ◌^◌, bit_and, bit_or, bit_xor}

module _ (a b : Bits) (x y : ℕ) (ca : Contains a x) (cb : Contains b y) where
  pub and_bits-Contains : Contains (and_bits a b) (bit_and x y)
  unfolding and_bits
  and_bits-Contains =
      known-Contains a.ty _ _ _ (and-lt_left (type_width a.ty) x y ca.typed) λ i p h. omega (
        bit_laws,
        agrees_at a x ca i,
        agrees_at b y cb i,
        type_width-le a.ty,
        value-lt a x ca,
        value-lt b y cb,
      )

  pub or_bits-Contains : y < 2 ^ type_width a.ty → Contains (or_bits a b) (bit_or x y)
  unfolding or_bits
  or_bits-Contains q =
      known-Contains a.ty _ _ _ (or-lt (type_width a.ty) x y ca.typed q)
        λ i p h. omega (bit_laws, agrees_at a x ca i, agrees_at b y cb i)

  pub xor_bits-Contains : y < 2 ^ type_width a.ty → Contains (xor_bits a b) (bit_xor x y)
  unfolding xor_bits
  xor_bits-Contains q =
      known-Contains a.ty _ _ _ (xor-lt (type_width a.ty) x y ca.typed q)
        λ i p h. omega (bit_laws, agrees_at a x ca i, agrees_at b y cb i)
