-- ===== src/Ir/Checks.antt =====
-- The type checks of the instructions (`type` and `type_checks` in jitir.py).
use metajit_cpp.Types.{
  IrType, void, bool, int8, int16, int32, int64, float32, float64, ptr, index, same_type, is_int,
  is_float, is_int_or_bool, type_width,
}
use metajit_cpp.Ir.{
  BinOp, add_ptr_inst, and_inst, or_inst, xor_inst, eq_inst, lt_s_inst, lt_u_inst, add_f_inst,
  sub_f_inst, mul_f_inst, div_f_inst, lt_f_u_inst, lt_f_o_inst, type_of, Op, freeze_inst,
  promote_inst, assume_const_inst, select_inst, resize_u_inst, resize_s_inst, resize_x_inst,
  ptr_to_int_inst, int_to_float_s_inst, float_to_int_s_inst, binary, load_inst, store_inst,
  alloca_inst, call_inst, branch_inst, jump_inst, exit_inst, comment_inst,
}
use metajit_cpp.Base.{ℕ, zero, suc, ◌≤◌, Bool, true, ◌&&◌, ◌≡◌, refl, sym, ap, ◌∙◌, ==→eq, arith}

unfoldable pub binary_checks : BinOp → IrType → IrType → Bool
unfolding same_type is_int is_float is_int_or_bool
binary_checks add_ptr_inst a b = same_type a ptr && same_type b int64
binary_checks and_inst a b = same_type a b && is_int_or_bool a
binary_checks or_inst a b = same_type a b && is_int_or_bool a
binary_checks xor_inst a b = same_type a b && is_int_or_bool a
binary_checks eq_inst a b = same_type a b
binary_checks add_f_inst a b = same_type a b && is_float a
binary_checks sub_f_inst a b = same_type a b && is_float a
binary_checks mul_f_inst a b = same_type a b && is_float a
binary_checks div_f_inst a b = same_type a b && is_float a
binary_checks lt_f_u_inst a b = same_type a b && is_float a
binary_checks lt_f_o_inst a b = same_type a b && is_float a
binary_checks _ a b = same_type a b && is_int a

unfoldable pub binary_type : BinOp → IrType → IrType
binary_type add_ptr_inst a = ptr
binary_type eq_inst a = bool
binary_type lt_s_inst a = bool
binary_type lt_u_inst a = bool
binary_type lt_f_u_inst a = bool
binary_type lt_f_o_inst a = bool
binary_type _ a = a

of_index : ℕ → IrType
of_index zero = void
of_index (suc zero) = bool
of_index (suc (suc zero)) = int8
of_index (suc (suc (suc zero))) = int16
of_index (suc (suc (suc (suc zero)))) = int32
of_index (suc (suc (suc (suc (suc zero))))) = int64
of_index (suc (suc (suc (suc (suc (suc zero)))))) = float32
of_index (suc (suc (suc (suc (suc (suc (suc zero))))))) = float64
of_index (suc (suc (suc (suc (suc (suc (suc (suc n)))))))) = ptr

of_index-index : (t : IrType) → of_index (index t) ≡ t
unfolding of_index index
of_index-index void = refl
of_index-index bool = refl
of_index-index int8 = refl
of_index-index int16 = refl
of_index-index int32 = refl
of_index-index int64 = refl
of_index-index float32 = refl
of_index-index float64 = refl
of_index-index ptr = refl

pub same_type→eq : (t u : IrType) → same_type t u ≡ true → t ≡ u
same_type→eq t u h =
    let e : index t ≡ index u = ==→eq (index t) (index u) (unfold same_type in h) in
    sym (of_index-index t) ∙ ap of_index e ∙ of_index-index u

-- An integer type is not Boolean and has bits.
pub is_int_facts : (t : IrType) → is_int t ≡ true → (t ≡ bool → ⊥) × (1 ≤ type_width t)
unfolding is_int type_width
is_int_facts int8 h = ((λ e. cc), omega arith)
is_int_facts int16 h = ((λ e. cc), omega arith)
is_int_facts int32 h = ((λ e. cc), omega arith)
is_int_facts int64 h = ((λ e. cc), omega arith)
is_int_facts void h = cc
is_int_facts bool h = cc
is_int_facts float32 h = cc
is_int_facts float64 h = cc
is_int_facts ptr h = cc

-- The type of an instruction is the one its class gives it, and its operands pass the checks.
unfoldable pub op_checks : IrType → Op → Bool
unfolding same_type is_int is_float is_int_or_bool binary_checks binary_type type_of
op_checks t (freeze_inst a) = same_type t (type_of a)
op_checks t (promote_inst a) = same_type t (type_of a)
op_checks t (assume_const_inst a) = same_type t (type_of a)
op_checks t (select_inst c a b) =
    same_type t (type_of a) && (same_type (type_of c) bool && same_type (type_of a) (type_of b))
op_checks t (resize_u_inst a) = is_int_or_bool (type_of a) && is_int_or_bool t
op_checks t (resize_s_inst a) = is_int_or_bool (type_of a) && is_int_or_bool t
op_checks t (resize_x_inst a) = is_int_or_bool (type_of a) && is_int_or_bool t
op_checks t (ptr_to_int_inst a) = same_type (type_of a) ptr && is_int t
op_checks t (int_to_float_s_inst a) = is_int (type_of a) && is_float t
op_checks t (float_to_int_s_inst a) = is_float (type_of a) && is_int t
op_checks t (binary o a b) =
    same_type t (binary_type o (type_of a)) && binary_checks o (type_of a) (type_of b)
op_checks t (load_inst p g o) = same_type (type_of p) ptr
op_checks t (store_inst p v g o) = same_type t void && same_type (type_of p) ptr
op_checks t (alloca_inst s) = same_type t ptr && same_type (type_of s) int64
op_checks t (call_inst f vs) = same_type (type_of f) ptr
op_checks t (branch_inst c x y) = same_type t void && same_type (type_of c) bool
op_checks t (jump_inst b vs) = same_type t void
op_checks t exit_inst = same_type t void
op_checks t comment_inst = same_type t void
