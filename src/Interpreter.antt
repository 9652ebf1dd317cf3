-- ===== src/Interpreter.antt =====
-- `Interpreter::Bits` of jitir.tmpl.hpp: a run-time value, which may be poison.
-- `none` is a failed assertion or undefined behaviour.
pub mod Eval
pub mod Machine
pub mod Runs
pub mod Storage
pub mod Entry
use metajit_cpp.Word.Ops.{add64, sub64, mul64, not64, shl64, shr64, div64, mod64}
use metajit_cpp.Types.Switch.{switch_quotient, switch_remainder, switch_less, switch_shift}
use metajit_cpp.Types.{
  IrType, void, bool, int8, int16, int32, int64, float32, float64, ptr, type_mask, type_width,
  type_size, same_type,
}
use metajit_cpp.Base.{
  ℕ, ◌-◌, ◌/◌, ◌%◌, bit_and, bit_or, bit_xor, Bool, true, false, not, ◌&&◌, ◌||◌, Option, none,
  some, ltb, ◌==◌, if◌then◌else◌, ◌>>=◌,
}

pub record Bits : Type 0 where
  pub ty : IrType
  pub is_poison : Bool
  pub value : ℕ

-- The constructor `Bits(type, is_poison, value)`.
unfoldable pub bits : IrType → Bool → ℕ → Bits
bits t p v = record { ty = t; is_poison = p; value = bit_and v (type_mask t) }

unfoldable pub constant : IrType → ℕ → Bits
unfolding bits
constant t v = bits t false v

unfoldable pub constant_bool : Bool → Bits
unfolding constant
constant_bool b = constant bool (if b then 1 else 0)

unfoldable pub poison : IrType → Bits
unfolding bits
poison t = bits t true 0

unfoldable pub at : Bits → ℕ → Option Bool
unfolding shl64
at b i = if b.is_poison then none else some (not (bit_and b.value (shl64 1 i) == 0))

unfoldable pub eval_div_u : IrType → ℕ → ℕ → Option Bits
unfolding constant div64
eval_div_u t a b = do res ← div64 a b; some (constant t res)

unfoldable pub eval_div_s : IrType → ℕ → ℕ → Option Bits
unfolding constant switch_quotient
eval_div_s t a b = do res ← switch_quotient t a b; some (constant t res)

unfoldable pub eval_mod_u : IrType → ℕ → ℕ → Option Bits
unfolding constant mod64
eval_mod_u t a b = do res ← mod64 a b; some (constant t res)

unfoldable pub eval_mod_s : IrType → ℕ → ℕ → Option Bits
unfolding constant switch_remainder
eval_mod_s t a b = do res ← switch_remainder t a b; some (constant t res)

unfoldable pub eval_lt_s : IrType → ℕ → ℕ → Option Bits
unfolding constant_bool switch_less
eval_lt_s t a b = do res ← switch_less t a b; some (constant_bool res)

unfoldable pub eval_shr_s : IrType → ℕ → ℕ → Option Bits
unfolding constant switch_shift
eval_shr_s t a b = do res ← switch_shift t a b; some (constant t res)

-- `propagating_binop`: the operation runs on the stored values also where one is poison, since the
-- type of its result is read from it.
unfoldable pub propagating_binop : (IrType → ℕ → ℕ → Option Bits) → Bits → Bits → Option Bits
unfolding poison
propagating_binop f a b = do
  r ← f a.ty a.value b.value
  some (if a.is_poison || b.is_poison then poison r.ty else r)

-- The expressions of the operators.
abbrev pub add_expr : IrType → ℕ → ℕ → Option Bits
add_expr t a b = some (constant t (add64 a b))

abbrev pub sub_expr : IrType → ℕ → ℕ → Option Bits
sub_expr t a b = some (constant t (sub64 a b))

abbrev pub mul_expr : IrType → ℕ → ℕ → Option Bits
mul_expr t a b = some (constant t (mul64 a b))

abbrev pub and_expr : IrType → ℕ → ℕ → Option Bits
and_expr t a b = some (constant t (bit_and a b))

abbrev pub or_expr : IrType → ℕ → ℕ → Option Bits
or_expr t a b = some (constant t (bit_or a b))

abbrev pub xor_expr : IrType → ℕ → ℕ → Option Bits
xor_expr t a b = some (constant t (bit_xor a b))

abbrev pub eq_expr : IrType → ℕ → ℕ → Option Bits
eq_expr t a b = some (constant_bool (a == b))

abbrev pub lt_u_expr : IrType → ℕ → ℕ → Option Bits
lt_u_expr t a b = some (constant_bool (ltb a b))

abbrev pub shl_expr : IrType → ℕ → ℕ → Option Bits
shl_expr t a b = if ltb b 64 then some (constant t (shl64 a b)) else none

abbrev pub shr_u_expr : IrType → ℕ → ℕ → Option Bits
shr_u_expr t a b = if ltb b 64 then some (constant t (shr64 a b)) else none

unfoldable pub add : Bits → Bits → Option Bits
unfolding propagating_binop constant
add = propagating_binop add_expr

unfoldable pub sub : Bits → Bits → Option Bits
unfolding propagating_binop constant
sub = propagating_binop sub_expr

unfoldable pub mul : Bits → Bits → Option Bits
unfolding propagating_binop constant
mul = propagating_binop mul_expr

unfoldable pub div_u : Bits → Bits → Option Bits
unfolding propagating_binop eval_div_u
div_u = propagating_binop eval_div_u

unfoldable pub div_s : Bits → Bits → Option Bits
unfolding propagating_binop eval_div_s
div_s = propagating_binop eval_div_s

unfoldable pub mod_u : Bits → Bits → Option Bits
unfolding propagating_binop eval_mod_u
mod_u = propagating_binop eval_mod_u

unfoldable pub mod_s : Bits → Bits → Option Bits
unfolding propagating_binop eval_mod_s
mod_s = propagating_binop eval_mod_s

unfoldable pub and_bits : Bits → Bits → Option Bits
unfolding propagating_binop constant
and_bits = propagating_binop and_expr

unfoldable pub or_bits : Bits → Bits → Option Bits
unfolding propagating_binop constant
or_bits = propagating_binop or_expr

unfoldable pub xor_bits : Bits → Bits → Option Bits
unfolding propagating_binop constant
xor_bits = propagating_binop xor_expr

unfoldable pub eq : Bits → Bits → Option Bits
unfolding propagating_binop constant_bool
eq = propagating_binop eq_expr

unfoldable pub lt_u : Bits → Bits → Option Bits
unfolding propagating_binop constant_bool
lt_u = propagating_binop lt_u_expr

unfoldable pub lt_s : Bits → Bits → Option Bits
unfolding propagating_binop eval_lt_s
lt_s = propagating_binop eval_lt_s

unfoldable pub shl : Bits → Bits → Option Bits
unfolding propagating_binop constant
shl = propagating_binop shl_expr

unfoldable pub shr_u : Bits → Bits → Option Bits
unfolding propagating_binop constant
shr_u = propagating_binop shr_u_expr

unfoldable pub shr_s : Bits → Bits → Option Bits
unfolding propagating_binop eval_shr_s
shr_s = propagating_binop eval_shr_s

unfoldable pub resize_u : Bits → IrType → Bits
unfolding poison constant
resize_u b to = if b.is_poison then poison to else constant to b.value

-- The value is widened by the sign bit; a type with no bits has none.
unfoldable pub resize_s : Bits → IrType → Option Bits
unfolding poison constant at
resize_s b to =
    if b.is_poison
    then some (poison to)
    else if ltb 0 (type_width b.ty)
    then (do
      sign ← at b (type_width b.ty - 1)
      let r = constant to b.value
      some (
          if sign
          then record r { value = bit_or r.value (bit_and (type_mask to) (not64 (type_mask b.ty))) }
          else r))
    else none

unfoldable pub resize_x : Bits → IrType → Bits
unfolding resize_u
resize_x b to = resize_u b to

unfoldable pub select : Bits → Bits → Bits → Bits
unfolding poison
select c a b = if c.is_poison then poison a.ty else if not (c.value == 0) then a else b

unfoldable pub ptr_to_int : Bits → IrType → Option Bits
unfolding constant same_type
ptr_to_int b to = if same_type b.ty ptr then some (constant to b.value) else none

-- `Freeze`: poison becomes zero.
unfoldable pub freeze : Bits → Bits
unfolding constant
freeze a = if a.is_poison then constant a.ty 0 else a
