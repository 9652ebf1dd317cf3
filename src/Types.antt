-- ===== src/Types.antt =====
-- The types of the IR (`enum class Type` in jitir.tmpl.hpp) with their sizes, widths and masks.
pub mod Masks
pub mod Switch
use metajit_cpp.Base.{
  ℕ, ◌+◌, ◌-◌, ◌*◌, ◌^◌, Bool, true, false, Option, none, some, ◌||◌, leb, ◌==◌, if◌then◌else◌,
}
use metajit_cpp.Word.Ops.{sub64, shl64}

-- `Type`. The Boolean type has a name of its own here.
pub data IrType : Type 0 where
  void bool int8 int16 int32 int64 float32 float64 ptr : IrType

unfoldable pub index : IrType → ℕ
index void = 0
index bool = 1
index int8 = 2
index int16 = 3
index int32 = 4
index int64 = 5
index float32 = 6
index float64 = 7
index ptr = 8

-- `==` on the enumeration.
unfoldable pub same_type : IrType → IrType → Bool
unfolding index
same_type t u = index t == index u

unfoldable pub is_int : IrType → Bool
is_int int8 = true
is_int int16 = true
is_int int32 = true
is_int int64 = true
is_int _ = false

unfoldable pub is_float : IrType → Bool
is_float float32 = true
is_float float64 = true
is_float _ = false

unfoldable pub is_int_or_bool : IrType → Bool
unfolding is_int same_type
is_int_or_bool t = is_int t || same_type t bool

-- In bytes; `sizeof(void*)` is 8.
unfoldable pub type_size : IrType → ℕ
type_size void = 0
type_size bool = 1
type_size int8 = 1
type_size int16 = 2
type_size int32 = 4
type_size int64 = 8
type_size float32 = 4
type_size float64 = 8
type_size ptr = 8

unfoldable pub type_width : IrType → ℕ
unfolding same_type type_size
type_width t = if same_type t bool then 1 else type_size t * 8

sized_mask : IrType → ℕ
unfolding type_size sub64 shl64
sized_mask t = if leb 8 (type_size t) then 2 ^ 64 - 1 else sub64 (shl64 1 (type_size t * 8)) 1

unfoldable pub type_mask : IrType → ℕ
unfolding sized_mask
type_mask void = 0
type_mask bool = 1
type_mask t = sized_mask t

-- `none` is the failed assertion "Unknown integer width".
unfoldable pub int_type_of_width : ℕ → Option IrType
int_type_of_width w =
    if w == 1
    then some bool
    else if w == 8
    then some int8
    else if w == 16
    then some int16
    else if w == 32
    then some int32
    else if w == 64
    then some int64
    else none

unfoldable pub int_type_of_size : ℕ → Option IrType
unfolding int_type_of_width
int_type_of_size size = int_type_of_width (size * 8)
