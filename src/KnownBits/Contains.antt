-- ===== src/KnownBits/Contains.antt =====
-- The values that `KnownBits::Bits` stand for, by an equation and bit by bit.
use native.Mathlib.Decide.{dec_lt}
use native.Mathlib.Nat.{pow-le-pow_right}
use metajit_cpp.Types.{IrType, type_mask, type_width}
use metajit_cpp.Types.Masks.{type_mask-eq-ones, type_width-le, bit-type_mask_ge}
use metajit_cpp.KnownBits.{Bits, known}
use metajit_cpp.Word.Bits.{bit, bit-le, bit-and, bit_ext}
use metajit_cpp.Word.Mask.{and-lt_left, and-ones, two_pow_pos}
use metajit_cpp.Base.{ℕ, ◌%◌, ◌^◌, ◌≤◌, ◌<◌, min, bit_and, ◌≡◌, ◌∙◌, sym, ap, arith}

-- `v` is a value of the type whose known bits are those of `b`.
pub record Contains (b : Bits) (v : ℕ) : Type 0 where
  pub masked : b.mask < 2 ^ type_width b.ty
  pub typed : v < 2 ^ type_width b.ty
  pub agrees : bit_and b.mask v ≡ b.value

pub two_pow-le : (t : IrType) → 2 ^ type_width t ≤ 2 ^ 64
two_pow-le t = pow-le-pow_right (omega arith) (type_width-le t)

pub and-type_mask : (t : IrType) (x : ℕ) → bit_and x (type_mask t) ≡ x % 2 ^ type_width t
and-type_mask t x = rw type_mask-eq-ones (and-ones (type_width t) x)

pub and-type_mask_lt : (t : IrType) (x : ℕ) → bit_and x (type_mask t) < 2 ^ type_width t
and-type_mask_lt t x = omega (arith, and-type_mask t x, two_pow_pos (type_width t))

module _ (b : Bits) (v : ℕ) (c : Contains b v) where
  -- A known bit is the value's, and an unknown one is stored as 0.
  pub agrees_at : (i : ℕ) → min (bit b.mask i) (bit v i) ≡ bit b.value i
  agrees_at i = sym (bit-and b.mask v i) ∙ ap (λ (t : ℕ). bit t i) c.agrees

  pub mask-lt : b.mask < 2 ^ 64
  mask-lt = omega (arith, c.masked, two_pow-le b.ty)

  pub element-lt : v < 2 ^ 64
  element-lt = omega (arith, c.typed, two_pow-le b.ty)

  pub value-lt_width : b.value < 2 ^ type_width b.ty
  value-lt_width = rw (sym c.agrees) (and-lt_left (type_width b.ty) b.mask v c.masked)

  pub value-lt : b.value < 2 ^ 64
  value-lt = omega (arith, value-lt_width, two_pow-le b.ty)

masked_bits :
    (m t v x : ℕ)
    → m ≤ 1
    → t ≤ 1
    → v ≤ 1
    → x ≤ 1
    → (t ≡ 1 → m ≡ 1 → v ≡ x)
    → min (min m t) v ≡ min (min x t) m
masked_bits m t v x p q r s h = elim (dec_lt m 1) [
  | yes a ↦ omega arith
  | no a ↦ elim (dec_lt t 1) [
    | yes e ↦ omega arith
    | no e ↦ omega (arith, h (omega arith) (omega arith))
  ]
]

pub below_width : (t : IrType) (i : ℕ) → bit (type_mask t) i ≡ 1 → i < type_width t
below_width t i e = elim (dec_lt i (type_width t)) [
  | yes p ↦ p
  | no p ↦ absurd (omega (arith, bit-type_mask_ge t i (omega arith)))
]

-- The constructor gives bits that contain `v` where `v` has the value's bits under the mask.
pub known-Contains :
    (t : IrType) (m x v : ℕ)
    → v < 2 ^ type_width t
    → ((i : ℕ) → i < type_width t → bit m i ≡ 1 → bit v i ≡ bit x i)
    → Contains (known t m x) v
unfolding known
known-Contains t m x v p h = record {
  masked = and-type_mask_lt t m;
  typed = p;
  agrees = bit_ext _ _ (λ i. omega (
    arith,
    bit-and (bit_and m (type_mask t)) v i,
    bit-and m (type_mask t) i,
    bit-and (bit_and x (type_mask t)) m i,
    bit-and x (type_mask t) i,
    masked_bits (bit m i) (bit (type_mask t) i) (bit v i) (bit x i) (bit-le _ i) (bit-le _ i)
        (bit-le _ i) (bit-le _ i) (λ e. h i (below_width t i e)),
  ));
}
