-- ===== src/Ir.antt =====
-- The values, instructions and blocks of the IR (jitir.tmpl.hpp, and the instruction list of
-- jitir.py), and `NameMap`, a map by the names of values.
pub mod Checks
pub mod Scopes
use metajit_cpp.Types.{IrType, ptr}
use metajit_cpp.Word.Signed.{ℤ}
use metajit_cpp.Base.{
  ℕ, Bool, true, false, ◌||◌, List, [], ◌∷◌, Option, none, some, ltb, ◌==◌, if◌then◌else◌,
}

-- `Value`: a constant, poison, a symbol, or an argument or instruction by its name.
pub data Value : Type 0 where
  const : IrType → ℕ → Value
  poison : IrType → Value
  symbol : IrType → ℕ → Value
  named : ℕ → IrType → Value

unfoldable pub type_of : Value → IrType
type_of (const t v) = t
type_of (poison t) = t
type_of (symbol t s) = t
type_of (named n t) = t

-- The instructions with two operands and no effect.
pub data BinOp : Type 0 where
  add_ptr_inst add_inst sub_inst mul_inst div_s_inst div_u_inst mod_s_inst mod_u_inst : BinOp
  and_inst or_inst xor_inst shl_inst shr_u_inst shr_s_inst : BinOp
  eq_inst lt_s_inst lt_u_inst : BinOp
  add_f_inst sub_f_inst mul_f_inst div_f_inst lt_f_u_inst lt_f_o_inst : BinOp

-- The classes of instructions with their operands.
pub data Op : Type 0 where
  freeze_inst promote_inst assume_const_inst : Value → Op
  select_inst : Value → Value → Value → Op
  resize_u_inst resize_s_inst resize_x_inst ptr_to_int_inst : Value → Op
  int_to_float_s_inst float_to_int_s_inst : Value → Op
  binary : BinOp → Value → Value → Op
  load_inst : Value → ℤ → ℕ → Op
  store_inst : Value → Value → ℤ → ℕ → Op
  alloca_inst : Value → Op
  call_inst : Value → List Value → Op
  branch_inst : Value → ℕ → ℕ → Op
  jump_inst : ℕ → List Value → Op
  exit_inst comment_inst : Op

pub record Inst : Type 0 where
  pub name : ℕ
  pub ty : IrType
  pub op : Op

pub record Arg : Type 0 where
  pub name : ℕ
  pub ty : IrType

pub record Block : Type 0 where
  pub args : List Arg
  pub insts : List Inst

-- The operands, as `args()` lists them.
unfoldable pub args_of : Op → List Value
args_of (freeze_inst a) = a ∷ []
args_of (promote_inst a) = a ∷ []
args_of (assume_const_inst a) = a ∷ []
args_of (select_inst c a b) = c ∷ a ∷ b ∷ []
args_of (resize_u_inst a) = a ∷ []
args_of (resize_s_inst a) = a ∷ []
args_of (resize_x_inst a) = a ∷ []
args_of (ptr_to_int_inst a) = a ∷ []
args_of (int_to_float_s_inst a) = a ∷ []
args_of (float_to_int_s_inst a) = a ∷ []
args_of (binary o a b) = a ∷ b ∷ []
args_of (load_inst p g o) = p ∷ []
args_of (store_inst p v g o) = p ∷ v ∷ []
args_of (alloca_inst s) = s ∷ []
args_of (call_inst f vs) = f ∷ vs
args_of (branch_inst c t f) = c ∷ []
args_of (jump_inst b vs) = vs
args_of exit_inst = []
args_of comment_inst = []

-- `NameMap<T>`: an array indexed by names; an access out of bounds fails its assertion.
pub record NameMap (A : Type 0) : Type 0 where
  pub size : ℕ
  pub entry : ℕ → A

module _ {A : Type 0} where
  unfoldable pub get : NameMap A → ℕ → Option A
  get m n = if ltb n m.size then some (m.entry n) else none

  unfoldable pub set : NameMap A → ℕ → A → Option (NameMap A)
  set m n x =
      if ltb n m.size
      then some (record m { entry = λ k. if k == n then x else m.entry k })
      else none

unfoldable pub has_side_effect : Op → Bool
has_side_effect (store_inst p v g o) = true
has_side_effect (call_inst f vs) = true
has_side_effect _ = false

unfoldable pub is_terminator : Op → Bool
is_terminator (branch_inst c t f) = true
is_terminator (jump_inst b vs) = true
is_terminator exit_inst = true
is_terminator _ = false

unfoldable pub successor_blocks : Op → List ℕ
successor_blocks (branch_inst c t f) = t ∷ f ∷ []
successor_blocks (jump_inst b vs) = b ∷ []
successor_blocks _ = []
