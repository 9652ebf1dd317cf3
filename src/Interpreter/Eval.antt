-- ===== src/Interpreter/Eval.antt =====
-- The part of `Interpreter::step` that computes a value, and `Interpreter::at`.
use metajit_cpp.Types.{IrType, float32, float64}
use metajit_cpp.Ir.{
  Value, const, poison, symbol, named, BinOp, add_ptr_inst, add_inst, sub_inst, mul_inst,
  div_s_inst, div_u_inst, mod_s_inst, mod_u_inst, and_inst, or_inst, xor_inst, shl_inst, shr_u_inst,
  shr_s_inst, eq_inst, lt_s_inst, lt_u_inst, add_f_inst, sub_f_inst, mul_f_inst, div_f_inst,
  lt_f_u_inst, lt_f_o_inst, Op, freeze_inst, promote_inst, assume_const_inst, select_inst,
  resize_u_inst, resize_s_inst, resize_x_inst, ptr_to_int_inst, binary, NameMap, get,
}
use metajit_cpp.Interpreter.{
  Bits, constant, constant_bool, propagating_binop, add, sub, mul, div_s, div_u, mod_s, mod_u,
  and_bits, or_bits, xor_bits, shl, shr_u, shr_s, eq, lt_s, lt_u, resize_u, resize_s, resize_x,
  select, ptr_to_int, freeze,
}
use metajit_cpp.Interpreter as I
use metajit_cpp.Base.{ℕ, not, ◌==◌, Option, none, some, ◌>>=◌}

-- The floating point unit: the result of an operator at a width, as a bit pattern or as 0 or 1.
abbrev pub FloatUnit : Type 0
FloatUnit = BinOp → ℕ → ℕ → ℕ → ℕ

module _ (floats : FloatUnit) where
  -- `float_binop`, for an arithmetic operator and for a comparison.
  unfoldable pub eval_float : BinOp → IrType → ℕ → ℕ → Option Bits
  unfolding constant
  eval_float o float32 a b = some (constant float32 (floats o 32 a b))
  eval_float o float64 a b = some (constant float64 (floats o 64 a b))
  eval_float o _ a b = none

  unfoldable pub eval_float_test : BinOp → IrType → ℕ → ℕ → Option Bits
  unfolding constant_bool
  eval_float_test o float32 a b = some (constant_bool (not (floats o 32 a b == 0)))
  eval_float_test o float64 a b = some (constant_bool (not (floats o 64 a b == 0)))
  eval_float_test o _ a b = none

  unfoldable pub eval_binary : BinOp → Bits → Bits → Option Bits
  unfolding add sub mul div_s div_u mod_s mod_u and_bits or_bits xor_bits shl shr_u shr_s eq lt_s
      lt_u propagating_binop eval_float eval_float_test
  eval_binary add_ptr_inst = add
  eval_binary add_inst = add
  eval_binary sub_inst = sub
  eval_binary mul_inst = mul
  eval_binary div_s_inst = div_s
  eval_binary div_u_inst = div_u
  eval_binary mod_s_inst = mod_s
  eval_binary mod_u_inst = mod_u
  eval_binary and_inst = and_bits
  eval_binary or_inst = or_bits
  eval_binary xor_inst = xor_bits
  eval_binary shl_inst = shl
  eval_binary shr_u_inst = shr_u
  eval_binary shr_s_inst = shr_s
  eval_binary eq_inst = eq
  eval_binary lt_s_inst = lt_s
  eval_binary lt_u_inst = lt_u
  eval_binary add_f_inst = propagating_binop (eval_float add_f_inst)
  eval_binary sub_f_inst = propagating_binop (eval_float sub_f_inst)
  eval_binary mul_f_inst = propagating_binop (eval_float mul_f_inst)
  eval_binary div_f_inst = propagating_binop (eval_float div_f_inst)
  eval_binary lt_f_u_inst = propagating_binop (eval_float_test lt_f_u_inst)
  eval_binary lt_f_o_inst = propagating_binop (eval_float_test lt_f_o_inst)

unfoldable pub at_value : NameMap Bits → Value → Option Bits
unfolding constant get I.poison
at_value values (const t v) = some (constant t v)
at_value values (named n t) = get values n
at_value values (poison t) = some (I.poison t)
at_value values (symbol t s) = none

-- The value that an instruction with no effect is given; `none` within it for any other one.
unfoldable pub eval : FloatUnit → NameMap Bits → IrType → Op → Option Bits
unfolding at_value eval_binary freeze select resize_u resize_s resize_x ptr_to_int
eval floats values t (promote_inst a) = at_value values a
eval floats values t (assume_const_inst a) = at_value values a
eval floats values t (freeze_inst a) = do x ← at_value values a; some (freeze x)
eval floats values t (select_inst c a b) = do
  z ← at_value values c
  x ← at_value values a
  y ← at_value values b
  some (select z x y)
eval floats values t (resize_u_inst a) = do x ← at_value values a; some (resize_u x t)
eval floats values t (resize_s_inst a) = do x ← at_value values a; resize_s x t
eval floats values t (resize_x_inst a) = do x ← at_value values a; some (resize_x x t)
eval floats values t (ptr_to_int_inst a) = do x ← at_value values a; ptr_to_int x t
eval floats values t (binary o a b) = do
  x ← at_value values a
  y ← at_value values b
  eval_binary floats o x y
eval floats values t _ = none
