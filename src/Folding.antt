-- ===== src/Folding.antt =====
-- The values that the folds of `Builder` (jitir.tmpl.hpp) look at, as trees, and the views by which
-- they do.
pub mod Consts
pub mod Bitwise
pub mod Arith
pub mod Compare
pub mod Shift
pub mod Effects
pub mod Checked
pub mod Numbers
pub mod Operands
pub mod Cases
pub mod Totals
pub mod Bits
pub mod ConstProp
pub mod Propagation
pub mod Rules
pub mod AndRules
pub mod OrRules
pub mod SelectRules
pub mod BoolRules
pub mod Good
pub mod ArmRules
pub mod AndStep
pub mod OrStep
pub mod SelectStep
pub mod Sound
pub mod Modular
pub mod Sums
pub mod Products
pub mod Remainder
pub mod Arithmetic
pub mod Equality
pub mod Comparisons
pub mod Orders
pub mod Pointers
pub mod Targets
use metajit_cpp.Types.{IrType, bool, ptr, same_type, is_int, is_int_or_bool, type_mask}
use metajit_cpp.Ir.{BinOp}
use metajit_cpp.Ir.Checks.{binary_checks, binary_type}
use metajit_cpp.Base.{ℕ, Bool, true, false, ◌&&◌, Option, none, some, ◌==◌, bit_and}

-- `leaf` is a value that no fold looks into, by its identity.
pub data Node : Type 0 where
  konst : IrType → ℕ → Node
  leaf : ℕ → IrType → Node
  binary : BinOp → Node → Node → Node
  select : Node → Node → Node → Node
  resize_u resize_s resize_x ptr_to_int : Node → IrType → Node

unfoldable pub node_type : Node → IrType
unfolding binary_type
node_type (konst t v) = t
node_type (leaf n t) = t
node_type (binary o a b) = binary_type o (node_type a)
node_type (select c a b) = node_type a
node_type (resize_u a t) = t
node_type (resize_s a t) = t
node_type (resize_x a t) = t
node_type (ptr_to_int a t) = t

-- The assertions of `Const` and of the instructions, throughout the tree.
unfoldable pub checked : Node → Bool
unfolding node_type binary_checks same_type is_int is_int_or_bool
checked (konst t v) = bit_and v (type_mask t) == v
checked (leaf n t) = true
checked (binary o a b) = binary_checks o (node_type a) (node_type b) && (checked a && checked b)
checked (select c a b) =
    same_type (node_type c) bool
    && (same_type (node_type a) (node_type b) && (checked c && (checked a && checked b)))
checked (resize_u a t) = is_int_or_bool (node_type a) && (is_int_or_bool t && checked a)
checked (resize_s a t) = is_int_or_bool (node_type a) && (is_int_or_bool t && checked a)
checked (resize_x a t) = is_int_or_bool (node_type a) && (is_int_or_bool t && checked a)
checked (ptr_to_int a t) = same_type (node_type a) ptr && (is_int t && checked a)

-- `build_const`
unfoldable pub build_const : IrType → ℕ → Node
build_const t v = konst t (bit_and v (type_mask t))

-- `dynmatch`
unfoldable pub as_konst : Node → Option ℕ
as_konst (konst t v) = some v
as_konst _ = none

unfoldable pub is_konst : Node → Bool
is_konst (konst t v) = true
is_konst _ = false

-- The operands of a match, or the code after it.
abbrev pub when_some {ℓ κ} : {A : Type ℓ} {B : Type κ} → Option A → (A → B) → B → B
when_some (some a) f k = f a
when_some none f k = k
