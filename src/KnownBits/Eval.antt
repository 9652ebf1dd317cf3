-- ===== src/KnownBits/Eval.antt =====
-- `KnownBits::Bits::at(values, value)`, `eval` of an instruction, and the loop over a block.
use metajit_cpp.Types.{IrType, type_mask}
use metajit_cpp.Ir.{
  Value, const, poison, symbol, named, BinOp, add_ptr_inst, add_inst, sub_inst, mul_inst,
  div_s_inst, div_u_inst, mod_s_inst, mod_u_inst, and_inst, or_inst, xor_inst, shl_inst, shr_u_inst,
  shr_s_inst, eq_inst, lt_s_inst, lt_u_inst, add_f_inst, sub_f_inst, mul_f_inst, div_f_inst,
  lt_f_u_inst, lt_f_o_inst, Op, freeze_inst, promote_inst, assume_const_inst, select_inst,
  resize_u_inst, resize_s_inst, resize_x_inst, binary, Inst, Arg, Block, NameMap, get, set,
}
use metajit_cpp.KnownBits.{
  Bits, known, select, resize_u, resize_s, resize_x, add, sub, mul, div_s, div_u, mod_s, mod_u,
  and_bits, or_bits, xor_bits, shl, shr_u, shr_s, eq, lt_s, lt_u,
}
use metajit_cpp.Base.{
  Bool, true, false, List, [], ◌∷◌, Option, none, some, ltb, if◌then◌else◌, ◌>>=◌,
}

-- Poison and symbols are the unreachable case of the source: its assertion fails.
unfoldable pub at_value : NameMap Bits → Value → Option Bits
unfolding known get
at_value values (const t v) = some (known t (type_mask t) v)
at_value values (named n t) = if ltb values.size n then some (known t 0 0) else get values n
at_value values (poison t) = none
at_value values (symbol t s) = none

unfoldable pub eval_binary : BinOp → IrType → Bits → Bits → Option Bits
unfolding known add sub mul div_s div_u mod_s mod_u and_bits or_bits xor_bits shl shr_u shr_s eq
    lt_s lt_u
eval_binary add_ptr_inst t a b = some (add a b)
eval_binary add_inst t a b = some (add a b)
eval_binary sub_inst t a b = some (sub a b)
eval_binary mul_inst t a b = some (mul a b)
eval_binary div_s_inst t a b = div_s a b
eval_binary div_u_inst t a b = div_u a b
eval_binary mod_s_inst t a b = mod_s a b
eval_binary mod_u_inst t a b = mod_u a b
eval_binary and_inst t a b = some (and_bits a b)
eval_binary or_inst t a b = some (or_bits a b)
eval_binary xor_inst t a b = some (xor_bits a b)
eval_binary shl_inst t a b = shl a b
eval_binary shr_u_inst t a b = shr_u a b
eval_binary shr_s_inst t a b = shr_s a b
eval_binary eq_inst t a b = some (eq a b)
eval_binary lt_s_inst t a b = lt_s a b
eval_binary lt_u_inst t a b = lt_u a b
eval_binary _ t a b = some (known t 0 0)

-- Only the instructions with a fold of their own look at their operands.
unfoldable pub is_folded : BinOp → Bool
is_folded add_f_inst = false
is_folded sub_f_inst = false
is_folded mul_f_inst = false
is_folded div_f_inst = false
is_folded lt_f_u_inst = false
is_folded lt_f_o_inst = false
is_folded _ = true

unfoldable pub eval : NameMap Bits → IrType → Op → Option Bits
unfolding at_value eval_binary is_folded known select resize_u resize_s resize_x
eval values t (freeze_inst a) = at_value values a
eval values t (promote_inst a) = at_value values a
eval values t (assume_const_inst a) = at_value values a
eval values t (select_inst c a b) = do
  kc ← at_value values c
  ka ← at_value values a
  kb ← at_value values b
  some (select kc ka kb)
eval values t (resize_u_inst a) = do ka ← at_value values a; some (resize_u ka t)
eval values t (resize_s_inst a) = do ka ← at_value values a; resize_s ka t
eval values t (resize_x_inst a) = do ka ← at_value values a; some (resize_x ka t)
eval values t (binary o a b) =
    if is_folded o
    then (do ka ← at_value values a; kb ← at_value values b; eval_binary o t ka kb)
    else some (known t 0 0)
eval values t _ = some (known t 0 0)

-- The two loops of the constructor `KnownBits(section)` over one block.
unfoldable pub enter_args : List Arg → NameMap Bits → Option (NameMap Bits)
unfolding known set
enter_args [] values = some values
enter_args (arg ∷ rest) values = do
  values' ← set values arg.name (known arg.ty 0 0)
  enter_args rest values'

unfoldable pub eval_insts : List Inst → NameMap Bits → Option (NameMap Bits)
unfolding eval set
eval_insts [] values = some values
eval_insts (inst ∷ rest) values = do
  b ← eval values inst.ty inst.op
  values' ← set values inst.name b
  eval_insts rest values'

unfoldable pub analyse_blocks : List Block → NameMap Bits → Option (NameMap Bits)
unfolding enter_args eval_insts
analyse_blocks [] values = some values
analyse_blocks (block ∷ rest) values = do
  values' ← enter_args block.args values
  values'' ← eval_insts block.insts values'
  analyse_blocks rest values''
