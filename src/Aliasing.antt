-- ===== src/Aliasing.antt =====
-- `Interval` and `could_alias` of jitir.tmpl.hpp.
pub mod Disjoint
use metajit_cpp.Types.{IrType, type_size}
use metajit_cpp.Ir.{Value, type_of}
use metajit_cpp.Word.Ops.{add64}
use metajit_cpp.Word.Signed.{ℤ, pos, negsuc}
use metajit_cpp.Base.{ℕ, Bool, true, false, not, ◌&&◌, ltb, ◌==◌, if◌then◌else◌}

-- `max` is exclusive.
pub record Interval : Type 0 where
  pub min : ℕ
  pub max : ℕ

unfoldable pub interval : ℕ → IrType → Interval
unfolding add64 type_size
interval offset t = record { min = offset; max = add64 offset (type_size t) }

unfoldable pub intersects : Interval → Interval → Bool
intersects a b = ltb b.min a.max && ltb a.min b.max

-- Tests on aliasing groups.
unfoldable pub same_group : ℤ → ℤ → Bool
same_group (pos a) (pos b) = a == b
same_group (negsuc a) (negsuc b) = a == b
same_group _ _ = false

unfoldable pub is_exact : ℤ → Bool
is_exact (pos n) = false
is_exact (negsuc n) = true

pub record Load : Type 0 where
  pub ptr : Value
  pub ty : IrType
  pub aliasing : ℤ
  pub offset : ℕ

pub record Store : Type 0 where
  pub ptr : Value
  pub value : Value
  pub aliasing : ℤ
  pub offset : ℕ

-- `same` compares the pointers to two values.
unfoldable pub could_alias : (Value → Value → Bool) → Load → Store → Bool
unfolding same_group is_exact interval intersects type_of
could_alias same load store =
    if not (same_group load.aliasing store.aliasing)
    then false
    else if is_exact load.aliasing
    then true
    else if not (same load.ptr store.ptr)
    then true
    else intersects (interval load.offset load.ty) (interval store.offset (type_of store.value))
