-- ===== src/Types/Masks.antt =====
-- `type_mask` and `type_width` of the types.
use metajit_cpp.Types.{
  IrType, void, bool, int8, int16, int32, int64, float32, float64, ptr, type_mask, type_width,
  int_type_of_width, is_int_or_bool,
}
use metajit_cpp.Word.Bits.{bit}
use metajit_cpp.Word.Mask.{bit-ones_lt, bit-ones_ge, two_pow_pos}
use metajit_cpp.Base.{ℕ, ◌-◌, ◌^◌, ◌≤◌, ◌<◌, ◌≡◌, refl, some, true, arith}

-- `type_mask` of each type has its lowest `type_width` bits set and no other, at the widths 0, 1
-- and 64 too.
pub type_mask-eq-ones : (t : IrType) → type_mask t ≡ 2 ^ type_width t - 1
unfolding type_mask type_width
type_mask-eq-ones void = refl
type_mask-eq-ones bool = refl
type_mask-eq-ones int8 = refl
type_mask-eq-ones int16 = refl
type_mask-eq-ones int32 = refl
type_mask-eq-ones int64 = refl
type_mask-eq-ones float32 = refl
type_mask-eq-ones float64 = refl
type_mask-eq-ones ptr = refl

pub type_width-le : (t : IrType) → type_width t ≤ 64
unfolding type_width
type_width-le void = omega arith
type_width-le bool = omega arith
type_width-le int8 = omega arith
type_width-le int16 = omega arith
type_width-le int32 = omega arith
type_width-le int64 = omega arith
type_width-le float32 = omega arith
type_width-le float64 = omega arith
type_width-le ptr = omega arith

pub type_mask-lt : (t : IrType) → type_mask t < 2 ^ 64
unfolding type_mask
type_mask-lt void = omega arith
type_mask-lt bool = omega arith
type_mask-lt int8 = omega arith
type_mask-lt int16 = omega arith
type_mask-lt int32 = omega arith
type_mask-lt int64 = omega arith
type_mask-lt float32 = omega arith
type_mask-lt float64 = omega arith
type_mask-lt ptr = omega arith

pub bit-type_mask_lt : (t : IrType) (i : ℕ) → i < type_width t → bit (type_mask t) i ≡ 1
bit-type_mask_lt t i h = rw type_mask-eq-ones (bit-ones_lt (type_width t) i h)

pub bit-type_mask_ge : (t : IrType) (i : ℕ) → type_width t ≤ i → bit (type_mask t) i ≡ 0
bit-type_mask_ge t i h = rw type_mask-eq-ones (bit-ones_ge (type_width t) i h)

-- For an integer type or Bool, `int_type_of_width` of its `type_width` is the type again.
pub int_type_of_width-type_width :
    (t : IrType) → is_int_or_bool t ≡ true → int_type_of_width (type_width t) ≡ some t
unfolding int_type_of_width type_width is_int_or_bool
int_type_of_width-type_width void h = cc
int_type_of_width-type_width bool h = refl
int_type_of_width-type_width int8 h = refl
int_type_of_width-type_width int16 h = refl
int_type_of_width-type_width int32 h = refl
int_type_of_width-type_width int64 h = refl
int_type_of_width-type_width float32 h = cc
int_type_of_width-type_width float64 h = cc
int_type_of_width-type_width ptr h = cc

pub type_mask-lt_width : (t : IrType) → type_mask t < 2 ^ type_width t
type_mask-lt_width t = rw type_mask-eq-ones (omega (arith, two_pow_pos (type_width t)))
