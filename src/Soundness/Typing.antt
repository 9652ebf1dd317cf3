-- ===== src/Soundness/Typing.antt =====
-- The types of the values that the interpreter gives binary instructions.
use mathlib.Core.Path.{subst}
use mathlib.Core.Bool.{and-eq-true_iff}
use metajit_cpp.Types.{IrType, bool, ptr, float32, float64, type_width}
use metajit_cpp.Types.Switch.{switch_quotient, switch_remainder, switch_less, switch_shift}
use metajit_cpp.Ir.{
  BinOp, add_ptr_inst, add_inst, sub_inst, mul_inst, div_s_inst, div_u_inst, mod_s_inst, mod_u_inst,
  and_inst, or_inst, xor_inst, shl_inst, shr_u_inst, shr_s_inst, eq_inst, lt_s_inst, lt_u_inst,
  add_f_inst, sub_f_inst, mul_f_inst, div_f_inst, lt_f_u_inst, lt_f_o_inst,
}
use metajit_cpp.Ir.Checks.{binary_checks, binary_type, same_type→eq}
use metajit_cpp.Interpreter as I
use metajit_cpp.Interpreter.Eval as IE
use metajit_cpp.Soundness.Relation.{propagated, constant_range}
use metajit_cpp.Word.Ops.{div64, mod64, shl64, shr64}
use metajit_cpp.Base.{
  ℕ, ◌<◌, ◌^◌, Bool, true, false, Option, some, none, ◌≡◌, refl, ◌∙◌, ◌>>=◌, ltb, if◌then◌else◌,
}

-- A value of a type.
pub record IsOf (t : IrType) (r : I.Bits) : Type 0 where
  pub ty : r.ty ≡ t
  pub range : r.value < 2 ^ type_width r.ty

pub constant-IsOf : (t : IrType) (v : ℕ) → IsOf t (I.constant t v)
unfolding I.constant
constant-IsOf t v = record { ty = refl; range = constant_range t v }

pub constant_bool-IsOf : (c : Bool) → IsOf bool (I.constant_bool c)
unfolding I.constant_bool
constant_bool-IsOf c = constant-IsOf bool _

some-IsOf : (t : IrType) (x p : I.Bits) → IsOf t x → some x ≡ some p → IsOf t p
some-IsOf t x p h e = let q : x ≡ p = cc in subst (IsOf t) q h

number-IsOf :
    (t : IrType) (o : Option ℕ) (p : I.Bits)
    → (o >>= λ v. some (I.constant t v)) ≡ some p
    → IsOf t p
number-IsOf t none p h = cc
number-IsOf t (some v) p h = some-IsOf t _ p (constant-IsOf t v) h

test-IsOf :
    (o : Option Bool) (p : I.Bits) → (o >>= λ v. some (I.constant_bool v)) ≡ some p → IsOf bool p
test-IsOf none p h = cc
test-IsOf (some v) p h = some-IsOf bool _ p (constant_bool-IsOf v) h

shift-IsOf :
    (t : IrType) (v : ℕ) (c : Bool) (p : I.Bits)
    → (if c then some (I.constant t v) else none) ≡ some p
    → IsOf t p
shift-IsOf t v true p h = some-IsOf t _ p (constant-IsOf t v) h
shift-IsOf t v false p h = cc

module _ (a b r : I.Bits) (floats : IE.FloatUnit) where
  propagating-IsOf :
      (f : IrType → ℕ → ℕ → Option I.Bits) (t : IrType)
      → ((p : I.Bits) → f a.ty a.value b.value ≡ some p → IsOf t p)
      → I.propagating_binop f a b ≡ some r
      → IsOf t r
  propagating-IsOf f t h e =
      let q = propagated f a b r e in
      let s = h q.plain q.runs in record { ty = q.same_ty ∙ s.ty; range = q.in_range s.range }

  float-IsOf :
      (o : BinOp) (t : IrType) (x y : ℕ) (p : I.Bits)
      → IE.eval_float floats o t x y ≡ some p
      → IsOf t p
  unfolding IE.eval_float
  float-IsOf o float32 x y p h = some-IsOf float32 _ p (constant-IsOf float32 _) h
  float-IsOf o float64 x y p h = some-IsOf float64 _ p (constant-IsOf float64 _) h
  float-IsOf o _ x y p h = cc

  float_test-IsOf :
      (o : BinOp) (t : IrType) (x y : ℕ) (p : I.Bits)
      → IE.eval_float_test floats o t x y ≡ some p
      → IsOf bool p
  unfolding IE.eval_float_test
  float_test-IsOf o float32 x y p h = some-IsOf bool _ p (constant_bool-IsOf _) h
  float_test-IsOf o float64 x y p h = some-IsOf bool _ p (constant_bool-IsOf _) h
  float_test-IsOf o _ x y p h = cc

  pub eval_binary-IsOf :
      (o : BinOp)
      → binary_checks o a.ty b.ty ≡ true
      → IE.eval_binary floats o a b ≡ some r
      → IsOf (binary_type o a.ty) r
  unfolding binary_checks binary_type IE.eval_binary I.add I.sub I.mul I.div_u I.div_s I.mod_u
      I.mod_s I.and_bits I.or_bits I.xor_bits I.eq I.lt_u I.lt_s I.shl I.shr_u I.shr_s I.eval_div_u
      I.eval_div_s I.eval_mod_u I.eval_mod_s I.eval_lt_s I.eval_shr_s
  eval_binary-IsOf add_ptr_inst c e =
      let (p, q) = (and-eq-true_iff _ _).0 c in
      rw (← same_type→eq a.ty ptr p)
        (propagating-IsOf I.add_expr a.ty (λ p. some-IsOf a.ty _ p (constant-IsOf a.ty _)) e)
  eval_binary-IsOf add_inst c e =
      propagating-IsOf I.add_expr a.ty (λ p. some-IsOf a.ty _ p (constant-IsOf a.ty _)) e
  eval_binary-IsOf sub_inst c e =
      propagating-IsOf I.sub_expr a.ty (λ p. some-IsOf a.ty _ p (constant-IsOf a.ty _)) e
  eval_binary-IsOf mul_inst c e =
      propagating-IsOf I.mul_expr a.ty (λ p. some-IsOf a.ty _ p (constant-IsOf a.ty _)) e
  eval_binary-IsOf div_s_inst c e =
      propagating-IsOf I.eval_div_s a.ty (number-IsOf a.ty (switch_quotient a.ty a.value b.value)) e
  eval_binary-IsOf div_u_inst c e =
      propagating-IsOf I.eval_div_u a.ty (number-IsOf a.ty (div64 a.value b.value)) e
  eval_binary-IsOf mod_s_inst c e =
      propagating-IsOf I.eval_mod_s a.ty (number-IsOf a.ty (switch_remainder a.ty a.value b.value))
        e
  eval_binary-IsOf mod_u_inst c e =
      propagating-IsOf I.eval_mod_u a.ty (number-IsOf a.ty (mod64 a.value b.value)) e
  eval_binary-IsOf and_inst c e =
      propagating-IsOf I.and_expr a.ty (λ p. some-IsOf a.ty _ p (constant-IsOf a.ty _)) e
  eval_binary-IsOf or_inst c e =
      propagating-IsOf I.or_expr a.ty (λ p. some-IsOf a.ty _ p (constant-IsOf a.ty _)) e
  eval_binary-IsOf xor_inst c e =
      propagating-IsOf I.xor_expr a.ty (λ p. some-IsOf a.ty _ p (constant-IsOf a.ty _)) e
  eval_binary-IsOf shl_inst c e =
      propagating-IsOf I.shl_expr a.ty (shift-IsOf a.ty (shl64 a.value b.value) (ltb b.value 64)) e
  eval_binary-IsOf shr_u_inst c e =
      propagating-IsOf I.shr_u_expr a.ty (shift-IsOf a.ty (shr64 a.value b.value) (ltb b.value 64))
        e
  eval_binary-IsOf shr_s_inst c e =
      propagating-IsOf I.eval_shr_s a.ty (number-IsOf a.ty (switch_shift a.ty a.value b.value)) e
  eval_binary-IsOf eq_inst c e =
      propagating-IsOf I.eq_expr bool (λ p. some-IsOf bool _ p (constant-IsOf bool _)) e
  eval_binary-IsOf lt_s_inst c e =
      propagating-IsOf I.eval_lt_s bool (test-IsOf (switch_less a.ty a.value b.value)) e
  eval_binary-IsOf lt_u_inst c e =
      propagating-IsOf I.lt_u_expr bool (λ p. some-IsOf bool _ p (constant_bool-IsOf _)) e
  eval_binary-IsOf add_f_inst c e =
      propagating-IsOf (IE.eval_float floats add_f_inst) a.ty
        (float-IsOf add_f_inst a.ty a.value b.value) e
  eval_binary-IsOf sub_f_inst c e =
      propagating-IsOf (IE.eval_float floats sub_f_inst) a.ty
        (float-IsOf sub_f_inst a.ty a.value b.value) e
  eval_binary-IsOf mul_f_inst c e =
      propagating-IsOf (IE.eval_float floats mul_f_inst) a.ty
        (float-IsOf mul_f_inst a.ty a.value b.value) e
  eval_binary-IsOf div_f_inst c e =
      propagating-IsOf (IE.eval_float floats div_f_inst) a.ty
        (float-IsOf div_f_inst a.ty a.value b.value) e
  eval_binary-IsOf lt_f_u_inst c e =
      propagating-IsOf (IE.eval_float_test floats lt_f_u_inst) bool
        (float_test-IsOf lt_f_u_inst a.ty a.value b.value) e
  eval_binary-IsOf lt_f_o_inst c e =
      propagating-IsOf (IE.eval_float_test floats lt_f_o_inst) bool
        (float_test-IsOf lt_f_o_inst a.ty a.value b.value) e
