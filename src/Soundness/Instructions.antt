-- ===== src/Soundness/Instructions.antt =====
-- The binary instructions of `KnownBits::Bits::eval` and of `Interpreter::step`.
use mathlib.Core.Path.{subst}
use mathlib.Core.Bool.{and-eq-true_iff}
use metajit_cpp.Types.{IrType, bool, ptr, int64, type_width, is_int, is_int_or_bool, same_type}
use metajit_cpp.Ir.{
  BinOp, add_ptr_inst, add_inst, sub_inst, mul_inst, div_s_inst, div_u_inst, mod_s_inst, mod_u_inst,
  and_inst, or_inst, xor_inst, shl_inst, shr_u_inst, shr_s_inst, eq_inst, lt_s_inst, lt_u_inst,
  add_f_inst, sub_f_inst, mul_f_inst, div_f_inst, lt_f_u_inst, lt_f_o_inst,
}
use metajit_cpp.Ir.Checks.{binary_checks, same_type→eq, is_int_facts}
use metajit_cpp.KnownBits as K
use metajit_cpp.KnownBits.Eval as KE
use metajit_cpp.Interpreter as I
use metajit_cpp.Interpreter.Eval as IE
use metajit_cpp.Soundness.Relation.{Approximates, label_of_not_bool}
use metajit_cpp.Soundness.Operators.{add_sound, sub_sound, and_sound, or_sound, xor_sound}
use metajit_cpp.Soundness.Folds.{mul_sound, div_s_sound, div_u_sound, mod_s_sound, mod_u_sound}
use metajit_cpp.Soundness.Tests.{eq_sound, lt_s_sound, lt_u_sound}
use metajit_cpp.Soundness.Shifts.{shl_sound, shr_u_sound, shr_s_sound}
use metajit_cpp.Base.{◌≤◌, true, ◌&&◌, some, ◌≡◌, sym, ◌∙◌}

module _ (ka kb : K.Bits) (a b r : I.Bits) (pa : Approximates ka a) (pb : Approximates kb b) where
  -- Operands of one integer type: the bits carry that type.
  integer_operands :
      (same_type a.ty b.ty && is_int a.ty) ≡ true
      → (a.ty ≡ b.ty) × (ka.ty ≡ a.ty) × (1 ≤ type_width a.ty)
  integer_operands h =
      let (e, i) = (and-eq-true_iff _ _).0 h in
      let (n, w) = is_int_facts a.ty i in
      (same_type→eq a.ty b.ty e, label_of_not_bool ka.ty a.ty n pa.label, w)

  bitwise_operands : (same_type a.ty b.ty && is_int_or_bool a.ty) ≡ true → a.ty ≡ b.ty
  bitwise_operands h = let (e, i) = (and-eq-true_iff _ _).0 h in same_type→eq a.ty b.ty e

  pointer_operand : (same_type a.ty ptr && same_type b.ty int64) ≡ true → ka.ty ≡ a.ty
  pointer_operand h =
      let (e, i) = (and-eq-true_iff _ _).0 h in
      let p = same_type→eq a.ty ptr e in
      label_of_not_bool ka.ty a.ty (λ q. let z : ptr ≡ bool = sym p ∙ q in cc) pa.label

  total : (k k' : K.Bits) → some k ≡ some k' → Approximates k r → Approximates k' r
  total k k' e h = let q : k ≡ k' = cc in subst (λ (z : K.Bits). Approximates z r) q h

  -- For each of the 17 binary instructions that `KnownBits::Bits::eval` folds, on operands of the
  -- types that the instruction's type checks allow: if the operands' known bits approximate their
  -- values, and both the analysis and the interpreter run without a failed assertion or undefined
  -- behaviour, then the known bits of the result approximate the interpreter's value, which is
  -- poison or agrees with every bit claimed.
  pub eval_binary_sound :
      (floats : IE.FloatUnit) (o : BinOp) (t : IrType) (k : K.Bits)
      → binary_checks o a.ty b.ty ≡ true
      → KE.is_folded o ≡ true
      → KE.eval_binary o t ka kb ≡ some k
      → IE.eval_binary floats o a b ≡ some r
      → Approximates k r
  unfolding binary_checks KE.is_folded KE.eval_binary IE.eval_binary
  eval_binary_sound fl add_ptr_inst t k c f h e =
      total _ k h (add_sound ka kb a b r pa pb (pointer_operand c) e)
  eval_binary_sound fl add_inst t k c f h e =
      let (u, l, w) = integer_operands c in total _ k h (add_sound ka kb a b r pa pb l e)
  eval_binary_sound fl sub_inst t k c f h e =
      let (u, l, w) = integer_operands c in total _ k h (sub_sound ka kb a b r pa pb l e)
  eval_binary_sound fl mul_inst t k c f h e =
      let (u, l, w) = integer_operands c in total _ k h (mul_sound ka kb a b r pa pb l e)
  eval_binary_sound fl div_s_inst t k c f h e =
      let (u, l, w) = integer_operands c in div_s_sound ka kb a b r pa pb k l h e
  eval_binary_sound fl div_u_inst t k c f h e =
      let (u, l, w) = integer_operands c in div_u_sound ka kb a b r pa pb k l h e
  eval_binary_sound fl mod_s_inst t k c f h e =
      let (u, l, w) = integer_operands c in mod_s_sound ka kb a b r pa pb k l h e
  eval_binary_sound fl mod_u_inst t k c f h e =
      let (u, l, w) = integer_operands c in mod_u_sound ka kb a b r pa pb k l h e
  eval_binary_sound fl and_inst t k c f h e = total _ k h (and_sound ka kb a b r pa pb e)
  eval_binary_sound fl or_inst t k c f h e =
      total _ k h (or_sound ka kb a b r pa pb (bitwise_operands c) e)
  eval_binary_sound fl xor_inst t k c f h e =
      total _ k h (xor_sound ka kb a b r pa pb (bitwise_operands c) e)
  eval_binary_sound fl shl_inst t k c f h e =
      let (u, l, w) = integer_operands c in shl_sound ka kb a b r pa pb k l h e
  eval_binary_sound fl shr_u_inst t k c f h e =
      let (u, l, w) = integer_operands c in shr_u_sound ka kb a b r pa pb k l h e
  eval_binary_sound fl shr_s_inst t k c f h e =
      let (u, l, w) = integer_operands c in shr_s_sound ka kb a b r pa pb k l u h e
  eval_binary_sound fl eq_inst t k c f h e = total _ k h (eq_sound ka kb a b r pa pb e)
  eval_binary_sound fl lt_s_inst t k c f h e =
      let (u, l, w) = integer_operands c in lt_s_sound ka kb a b r pa pb k l w h e
  eval_binary_sound fl lt_u_inst t k c f h e =
      let (u, l, w) = integer_operands c in lt_u_sound ka kb a b r pa pb k l w h e
  eval_binary_sound fl add_f_inst t k c f h e = cc
  eval_binary_sound fl sub_f_inst t k c f h e = cc
  eval_binary_sound fl mul_f_inst t k c f h e = cc
  eval_binary_sound fl div_f_inst t k c f h e = cc
  eval_binary_sound fl lt_f_u_inst t k c f h e = cc
  eval_binary_sound fl lt_f_o_inst t k c f h e = cc
