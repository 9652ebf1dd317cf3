-- ===== src/Interpreter/Machine.antt =====
-- The class `Interpreter`: its state, `enter`, `step`, `run_for` and `run_until`.
use metajit_cpp.Types.{IrType, void, ptr, same_type, type_size}
use metajit_cpp.Memory.{Memory, write_bytes, read_bytes, is_access_size}
use metajit_cpp.Ir.{
  Value, Op, load_inst, store_inst, alloca_inst, branch_inst, jump_inst, exit_inst, comment_inst,
  Inst, Arg, Block, NameMap, set,
}
use metajit_cpp.Interpreter.{Bits, constant}
use metajit_cpp.Interpreter.Eval.{FloatUnit, at_value, eval}
use metajit_cpp.Word.Ops.{add64}
use metajit_cpp.Base.{
  ℕ, zero, suc, Bool, true, false, not, ◌&&◌, List, [], ◌∷◌, ◌++◌, Option, none, some, ltb, ◌==◌,
  if◌then◌else◌, ◌>>=◌, length, get_elem?, ◌||◌,
}

pub data Event : Type 0 where
  none_event exit_event enter_block : Event

-- `Bits()`
abbrev pub no_bits : Bits
no_bits = record { ty = void; is_poison = false; value = 0 }

-- `Bits::load` and `Bits::store`.
unfoldable pub load : Memory → ℕ → IrType → Option Bits
unfolding is_access_size type_size read_bytes constant
load memory p t =
    if is_access_size (type_size t)
    then some (constant t (read_bytes (type_size t) memory p))
    else none

unfoldable pub store : Bits → Memory → ℕ → Option Memory
unfolding is_access_size type_size write_bytes
store b memory p =
    if not b.is_poison && is_access_size (type_size b.ty)
    then some (write_bytes (type_size b.ty) memory p b.value)
    else none

-- `_inst` is the head of `insts`, the rest of `_block`.
pub record Machine : Type 0 where
  pub values : NameMap Bits
  pub memory : Memory
  pub alloca_storage : List ℕ
  pub block : ℕ
  pub insts : List Inst

-- What the interpreter takes from its host: floating point, and the address that `new` gives for the
-- storage there is and a size.
pub record Host : Type 0 where
  pub floats : FloatUnit
  pub new_storage : List ℕ → ℕ → ℕ

-- The loop of `enter` over the arguments of a block.
unfoldable pub bind_args : List Arg → List Bits → NameMap Bits → Option (NameMap Bits)
unfolding same_type set
bind_args [] bits values = some values
bind_args (arg ∷ rest) [] values = none
bind_args (arg ∷ rest) (b ∷ bits) values =
    if same_type b.ty arg.ty
    then (do values' ← set values arg.name b; bind_args rest bits values')
    else none

unfoldable pub at_values : NameMap Bits → List Value → Option (List Bits)
unfolding at_value
at_values values [] = some []
at_values values (v ∷ rest) = do
  b ← at_value values v
  bits ← at_values values rest
  some (b ∷ bits)

-- `_values[_inst] = ...`, and the move to the next instruction.
unfoldable pub assign : Inst → List Inst → Machine → Bits → Option (Machine × Event)
unfolding set
assign inst rest m b = do
  values ← set m.values inst.name b
  some (record m { values = values; insts = rest }, none_event)

-- `ptr_bits.value + offset`
unfoldable pub address : Bits → ℕ → ℕ
unfolding add64
address p offset = add64 p.value offset

unfoldable pub is_exit : Event → Bool
is_exit exit_event = true
is_exit _ = false

unfoldable pub same_event : Event → Event → Bool
same_event none_event none_event = true
same_event exit_event exit_event = true
same_event enter_block enter_block = true
same_event _ _ = false

module _ (host : Host) (blocks : List Block) where
  unfoldable pub enter : ℕ → List Bits → Machine → Option Machine
  unfolding bind_args
  enter target bits m = do
    block ← get_elem? blocks target
    values ← if length bits == length block.args then bind_args block.args bits m.values else none
    some (record m { values = values; block = target; insts = block.insts })

  unfoldable pub enter_event : ℕ → List Bits → Machine → Option (Machine × Event)
  unfolding enter
  enter_event target bits m = do m' ← enter target bits m; some (m', enter_block)

  unfoldable pub step_inst : Inst → Op → List Inst → Machine → Option (Machine × Event)
  unfolding at_value at_values eval load store assign address enter_event
  step_inst inst (load_inst p g offset) rest m = do
    p_bits ← at_value m.values p
    b ← if not p_bits.is_poison then load m.memory (address p_bits offset) inst.ty else none
    assign inst rest m b
  step_inst inst (store_inst p v g offset) rest m = do
    p_bits ← at_value m.values p
    v_bits ← at_value m.values v
    memory ← if not p_bits.is_poison then store v_bits m.memory (address p_bits offset) else none
    assign inst rest (record m { memory = memory }) no_bits
  step_inst inst (alloca_inst size) rest m = do
    s_bits ← at_value m.values size
    let allocation = host.new_storage m.alloca_storage s_bits.value
    (if not s_bits.is_poison && ltb 0 s_bits.value
        then assign inst rest (record m { alloca_storage = m.alloca_storage ++ (allocation ∷ []) })
            (constant ptr allocation)
        else none)
  step_inst inst (jump_inst target vs) rest m = do
    bits ← at_values m.values vs
    enter_event target bits m
  step_inst inst (branch_inst c on_true on_false) rest m = do
    cond ← at_value m.values c
    (if not cond.is_poison
        then enter_event (if not (cond.value == 0) then on_true else on_false) [] m
        else none)
  step_inst inst exit_inst rest m = some (m, exit_event)
  step_inst inst comment_inst rest m = some (record m { insts = rest }, none_event)
  step_inst inst op rest m = do b ← eval host.floats m.values inst.ty op; assign inst rest m b

  unfoldable pub step_at : List Inst → Machine → Option (Machine × Event)
  unfolding step_inst
  step_at [] m = none
  step_at (inst ∷ rest) m = step_inst inst inst.op rest m

  unfoldable pub step : Machine → Option (Machine × Event)
  unfolding step_at
  step m = step_at m.insts m

  unfoldable pub run_for : ℕ → Machine → Option (Machine × Event)
  unfolding step is_exit
  run_for zero m = some (m, none_event)
  run_for (suc steps) m = step m >>= λ stepped. elim (is_exit stepped.1) [
    | true ↦ some stepped
    | false ↦ run_for steps stepped.0
  ]

  -- `fuel` bounds the steps; where it runs out there is no result.
  unfoldable pub run_until : ℕ → Event → Machine → Option (Machine × Event)
  unfolding step is_exit same_event
  run_until zero event m = none
  run_until (suc fuel) event m = step m >>= λ stepped.
      elim (same_event stepped.1 event || is_exit stepped.1) [
        | true ↦ some stepped
        | false ↦ run_until fuel event stepped.0
      ]
