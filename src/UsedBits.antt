-- ===== src/UsedBits.antt =====
-- `UsedBits` of jitir.tmpl.hpp: the bits of each instruction that its users look at.
-- `none` is a failed assertion or undefined behaviour.
pub mod Demand
use metajit_cpp.Types.{IrType, void, same_type, type_mask, type_width, type_size}
use metajit_cpp.Ir.{
  Value, const, named, type_of, BinOp, and_inst, or_inst, xor_inst, add_inst, sub_inst, mul_inst,
  shr_u_inst, shr_s_inst, Op, select_inst, resize_u_inst, resize_x_inst, binary, Inst, Block,
  NameMap, get, set, args_of, has_side_effect, is_terminator,
}
use metajit_cpp.Word.Ops.{not64, shl64, shr64, sub64}
use metajit_cpp.Base.{
  ℕ, ◌+◌, ◌-◌, ◌*◌, bit_and, bit_or, Bool, true, false, not, ◌&&◌, ◌||◌, List, [], ◌∷◌, Option,
  none, some, ltb, ◌==◌, if◌then◌else◌, ◌>>=◌,
}

pub record Bits : Type 0 where
  pub ty : IrType
  pub used : ℕ

-- The constructor `Bits(type, used)`.
unfoldable pub used_bits : IrType → ℕ → Bits
used_bits t u = record { ty = t; used = bit_and u (type_mask t) }

unfoldable pub all : IrType → Bits
unfolding used_bits
all t = used_bits t (type_mask t)

unfoldable pub at : Bits → ℕ → Bool
unfolding shl64
at b i = not (bit_and b.used (shl64 1 i) == 0)

unfoldable pub shr_u_arg_0 : Bits → ℕ → Option ℕ
unfolding shl64
shr_u_arg_0 b s = if ltb s 64 then some (bit_and (shl64 b.used s) (type_mask b.ty)) else none

-- The mask of the bits that the sign fills is undefined where its shift is not below 64.
unfoldable pub shr_s_arg_0 : Bits → ℕ → Option ℕ
unfolding shl64 sub64
shr_s_arg_0 b s =
    if ltb s 64 && ltb (sub64 (type_width b.ty) s) 64
    then some (
        let sign_extend_mask = shl64 (sub64 (shl64 1 s) 1) (sub64 (type_width b.ty) s) in
        let result = shl64 b.used s in
        let signed =
          if not (bit_and b.used sign_extend_mask == 0)
          then bit_or result (shl64 1 (type_width b.ty - 1))
          else result in
        bit_and signed (type_mask b.ty))
    else none

-- The loop `for (it = 1; it < 64; it *= 2) used |= used >> it`.
unfoldable pub smear : ℕ → ℕ
unfolding shr64
smear used =
    let u1 = bit_or used (shr64 used 1) in
    let u2 = bit_or u1 (shr64 u1 2) in
    let u4 = bit_or u2 (shr64 u2 4) in
    let u8 = bit_or u4 (shr64 u4 8) in
    let u16 = bit_or u8 (shr64 u8 16) in bit_or u16 (shr64 u16 32)

-- The calls `use(value, used)` that an instruction makes, in order.
abbrev pub Uses : Type 0
Uses = List (Value × ℕ)

unfoldable pub use_each : List Value → ℕ → Uses
use_each [] used = []
use_each (v ∷ rest) used = (v, used) ∷ use_each rest used

unfoldable pub use_all_args : List Value → Uses
use_all_args [] = []
use_all_args (v ∷ rest) = (v, type_mask (type_of v)) ∷ use_all_args rest

-- The last case: every bit of the operands, unless the instruction has no effect and no user.
unfoldable pub uses_of_any : Op → ℕ → Uses
unfolding use_each use_all_args args_of has_side_effect is_terminator
uses_of_any op used =
    if has_side_effect op || is_terminator op || not (used == 0)
    then use_all_args (args_of op)
    else use_each (args_of op) 0

unfoldable pub uses_of_and : Value → Value → ℕ → Uses
uses_of_and a (const t c) used = (a, bit_and used c) ∷ (const t c, used) ∷ []
uses_of_and a b used = (a, used) ∷ (b, used) ∷ []

unfoldable pub uses_of_or : Value → Value → ℕ → Uses
unfolding not64
uses_of_or a (const t c) used = (a, bit_and used (not64 c)) ∷ (const t c, used) ∷ []
uses_of_or a b used = (a, used) ∷ (b, used) ∷ []

unfoldable pub uses_of_shift : (Bits → ℕ → Option ℕ) → IrType → Value → Value → ℕ → Option Uses
uses_of_shift arg_0 t a (const u c) used =
    if ltb c (type_size t * 8)
    then (do
      m ← arg_0 (record { ty = t; used = used }) c
      some ((a, m) ∷ (const u c, type_mask u) ∷ []))
    else some ((a, 0) ∷ (const u c, type_mask u) ∷ [])
uses_of_shift arg_0 t a b used = some ((a, type_mask (type_of a)) ∷ (b, type_mask (type_of b)) ∷ [])

unfoldable pub uses_of : IrType → Op → ℕ → Option Uses
unfolding smear uses_of_any uses_of_and uses_of_or uses_of_shift shr_u_arg_0 shr_s_arg_0
uses_of t (resize_u_inst a) used = some ((a, used) ∷ [])
uses_of t (resize_x_inst a) used = some ((a, used) ∷ [])
uses_of t (binary and_inst a b) used = some (uses_of_and a b used)
uses_of t (binary or_inst a b) used = some (uses_of_or a b used)
uses_of t (binary xor_inst a b) used = some ((a, used) ∷ (b, used) ∷ [])
uses_of t (select_inst c a b) used = some (
    if not (used == 0)
    then (c, type_mask (type_of c)) ∷ (a, used) ∷ (b, used) ∷ []
    else (a, used) ∷ (b, used) ∷ [])
uses_of t (binary add_inst a b) used = some ((a, smear used) ∷ (b, smear used) ∷ [])
uses_of t (binary sub_inst a b) used = some ((a, smear used) ∷ (b, smear used) ∷ [])
uses_of t (binary mul_inst a b) used = some ((a, smear used) ∷ (b, smear used) ∷ [])
uses_of t (binary shr_u_inst a b) used = uses_of_shift shr_u_arg_0 t a b used
uses_of t (binary shr_s_inst a b) used = uses_of_shift shr_s_arg_0 t a b used
uses_of t op used = some (uses_of_any op used)

-- `_values[inst]`, set to no used bits of the type if it was not set before.
unfoldable pub touch : NameMap Bits → ℕ → IrType → Option (NameMap Bits)
unfolding get set used_bits same_type
touch values n t = do
  b ← get values n
  (if same_type b.ty t
      then some values
      else if same_type b.ty void
      then set values n (used_bits t 0)
      else none)

module _ (is_inst : ℕ → Bool) where
  -- `use(value, used)`; arguments and constants have no entry.
  unfoldable pub use_value : Value → ℕ → NameMap Bits → Option (NameMap Bits)
  unfolding touch get set
  use_value (named n t) used values =
      if is_inst n
      then (do
        values' ← touch values n t
        b ← get values' n
        set values' n (record b { used = bit_or b.used (bit_and used (type_mask t)) }))
      else some values
  use_value _ used values = some values

  unfoldable pub use_values : Uses → NameMap Bits → Option (NameMap Bits)
  unfolding use_value
  use_values [] values = some values
  use_values ((v, used) ∷ rest) values = do
    values' ← use_value v used values
    use_values rest values'

  unfoldable pub visit : Inst → NameMap Bits → Option (NameMap Bits)
  unfolding touch get uses_of use_values
  visit inst values = do
    values' ← touch values inst.name inst.ty
    b ← get values' inst.name
    uses ← uses_of inst.ty inst.op b.used
    use_values uses values'

  -- The loops of the constructor: the blocks, and the instructions of each, from the last one.
  unfoldable pub visit_insts : List Inst → NameMap Bits → Option (NameMap Bits)
  unfolding visit
  visit_insts [] values = some values
  visit_insts (inst ∷ rest) values = do values' ← visit_insts rest values; visit inst values'

  unfoldable pub visit_blocks : List Block → NameMap Bits → Option (NameMap Bits)
  unfolding visit_insts
  visit_blocks [] values = some values
  visit_blocks (block ∷ rest) values = do
    values' ← visit_blocks rest values
    visit_insts block.insts values'
