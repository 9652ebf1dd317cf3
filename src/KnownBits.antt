-- ===== src/KnownBits.antt =====
-- `KnownBits::Bits` of jitir.tmpl.hpp: the bits of a value that are known, and their values.
-- `none` is a failed assertion or undefined behaviour.
pub mod Contains
pub mod Bitwise
pub mod Sums
pub mod Consts
pub mod Shifts
pub mod Resizes
pub mod Signs
pub mod Matches
pub mod Eval
use metajit_cpp.Word.Ops.{add64, sub64, mul64, not64, shl64, shr64, div64, mod64}
use metajit_cpp.Types.Switch.{switch_quotient, switch_remainder, switch_less, switch_shift}
use metajit_cpp.Types.{
  IrType, bool, int8, int16, int32, int64, ptr, type_mask, type_width, type_size,
}
use metajit_cpp.Base.{
  ℕ, ◌-◌, ◌+◌, ◌*◌, ◌/◌, ◌%◌, ◌^◌, bit_and, bit_or, bit_xor, Bool, true, false, not, ◌&&◌, Option,
  none, some, ltb, leb, ◌==◌, if◌then◌else◌, ◌>>=◌,
}

pub record Bits : Type 0 where
  pub ty : IrType
  pub mask : ℕ
  pub value : ℕ

-- The constructor `Bits(type, mask, value)`.
unfoldable pub known : IrType → ℕ → ℕ → Bits
known t m v = record {
  ty = t;
  mask = bit_and m (type_mask t);
  value = bit_and (bit_and v (type_mask t)) m;
}

unfoldable pub constant : IrType → ℕ → Bits
unfolding known
constant t v = known t (type_mask t) v

unfoldable pub constant_bool : Bool → Bits
unfolding constant
constant_bool b = constant bool (if b then 1 else 0)

unfoldable pub is_known : Bits → ℕ → Bool
unfolding shl64
is_known b i = not (bit_and b.mask (shl64 1 i) == 0)

unfoldable pub at : Bits → ℕ → Option Bool
unfolding shl64
at b i =
    if not (bit_and b.mask (shl64 1 i) == 0)
    then some (not (bit_and b.value (shl64 1 i) == 0))
    else none

unfoldable pub is_const : Bits → Bool
is_const b = b.mask == type_mask b.ty

unfoldable pub matches_const : Bits → ℕ → Bool
matches_const b other = bit_and b.mask other == bit_and b.mask b.value

-- The static folds of two constants.
unfoldable pub fold_div_u : IrType → ℕ → ℕ → Option Bits
unfolding constant div64
fold_div_u t a b = do res ← div64 a b; some (constant t res)

unfoldable pub fold_div_s : IrType → ℕ → ℕ → Option Bits
unfolding constant switch_quotient
fold_div_s t a b = do res ← switch_quotient t a b; some (constant t res)

unfoldable pub fold_mod_u : IrType → ℕ → ℕ → Option Bits
unfolding constant mod64
fold_mod_u t a b = do res ← mod64 a b; some (constant t res)

unfoldable pub fold_mod_s : IrType → ℕ → ℕ → Option Bits
unfolding constant switch_remainder
fold_mod_s t a b = do res ← switch_remainder t a b; some (constant t res)

unfoldable pub fold_lt_u : IrType → ℕ → ℕ → Option Bits
unfolding constant_bool
fold_lt_u t a b = some (constant_bool (ltb a b))

unfoldable pub fold_lt_s : IrType → ℕ → ℕ → Option Bits
unfolding constant_bool switch_less
fold_lt_s t a b = do res ← switch_less t a b; some (constant_bool res)

-- `const_binop`
unfoldable pub const_binop : (IrType → ℕ → ℕ → Option Bits) → Bits → Bits → Option Bits
unfolding is_const known
const_binop f a b =
    if is_const a && is_const b then f a.ty a.value b.value else some (known a.ty 0 0)

unfoldable pub mul : Bits → Bits → Bits
unfolding is_const known constant
mul a b = if is_const a && is_const b then constant a.ty (mul64 a.value b.value) else known a.ty 0 0

unfoldable pub div_u : Bits → Bits → Option Bits
unfolding const_binop fold_div_u
div_u = const_binop fold_div_u

unfoldable pub div_s : Bits → Bits → Option Bits
unfolding const_binop fold_div_s
div_s = const_binop fold_div_s

unfoldable pub mod_u : Bits → Bits → Option Bits
unfolding const_binop fold_mod_u
mod_u = const_binop fold_mod_u

unfoldable pub mod_s : Bits → Bits → Option Bits
unfolding const_binop fold_mod_s
mod_s = const_binop fold_mod_s

-- Where an operand is unknown, these too give a value of the operands' type.
unfoldable pub lt_u : Bits → Bits → Option Bits
unfolding const_binop fold_lt_u
lt_u = const_binop fold_lt_u

unfoldable pub lt_s : Bits → Bits → Option Bits
unfolding const_binop fold_lt_s
lt_s = const_binop fold_lt_s

unfoldable pub eq : Bits → Bits → Bits
unfolding constant_bool is_const known
eq a b =
    let both = bit_and a.mask b.mask in
    if not (bit_and both a.value == bit_and both b.value)
    then constant_bool false
    else if is_const a && is_const b
    then constant_bool (a.value == b.value)
    else known bool 0 0

-- `operator&`, `operator|`, `operator^`
unfoldable pub and_bits : Bits → Bits → Bits
unfolding known
and_bits a b =
    known a.ty
      (bit_or (bit_or (bit_and a.mask b.mask) (bit_and a.mask (not64 a.value)))
        (bit_and b.mask (not64 b.value)))
      (bit_and a.value b.value)

unfoldable pub or_bits : Bits → Bits → Bits
unfolding known
or_bits a b =
    known a.ty
      (bit_or (bit_or (bit_and a.mask b.mask) (bit_and a.mask a.value)) (bit_and b.mask b.value))
      (bit_or a.value b.value)

unfoldable pub xor_bits : Bits → Bits → Bits
unfolding known
xor_bits a b = known a.ty (bit_and a.mask b.mask) (bit_xor a.value b.value)

-- `operator+`
unfoldable pub add : Bits → Bits → Bits
unfolding known
add a b =
    let sum_values = add64 a.value b.value in
    let this_unknowns = not64 a.mask in
    let other_unknowns = not64 b.mask in
    let sum_unknowns = add64 this_unknowns other_unknowns in
    let all_carries = add64 sum_values sum_unknowns in
    let ones_carries = bit_xor all_carries sum_values in
    let unknowns = bit_or (bit_or this_unknowns other_unknowns) ones_carries in
    known a.ty (not64 unknowns) (bit_and sum_values (not64 unknowns))

-- `operator-`
unfoldable pub sub : Bits → Bits → Bits
unfolding known
sub a b =
    let diff_value = sub64 a.value b.value in
    let this_unknowns = not64 a.mask in
    let other_unknowns = not64 b.mask in
    let val_borrows = bit_xor (add64 diff_value this_unknowns) (sub64 diff_value other_unknowns) in
    let unknowns = bit_or (bit_or this_unknowns other_unknowns) val_borrows in
    known a.ty (not64 unknowns) (bit_and diff_value (not64 unknowns))

-- `shl(size_t)`, `shr_u(size_t)`, `shr_s(size_t)`; a shift by 64 or more is undefined.
unfoldable pub shl_below_64 : Bits → ℕ → Bits
unfolding known
shl_below_64 b s =
    known b.ty (bit_and (bit_or (shl64 b.mask s) (sub64 (shl64 1 s) 1)) (type_mask b.ty))
      (bit_and (shl64 b.value s) (type_mask b.ty))

unfoldable pub shl_by : Bits → ℕ → Option Bits
unfolding shl_below_64
shl_by b s = if ltb s 64 then some (shl_below_64 b s) else none

unfoldable pub upper_bits : IrType → ℕ → ℕ
upper_bits t s = bit_and (type_mask t) (not64 (shr64 (type_mask t) s))

unfoldable pub shr_u_below_64 : Bits → ℕ → Bits
unfolding known upper_bits
shr_u_below_64 b s = known b.ty (bit_or (shr64 b.mask s) (upper_bits b.ty s)) (shr64 b.value s)

unfoldable pub shr_u_by : Bits → ℕ → Option Bits
unfolding shr_u_below_64
shr_u_by b s = if ltb s 64 then some (shr_u_below_64 b s) else none

-- What `shr_s` and `resize_s` do with the sign bit of the operand.
unfoldable pub extend_sign : Bits → Option Bool → ℕ → Bits
extend_sign r none upper = r
extend_sign r (some true) upper = record r {
  mask = bit_or r.mask upper;
  value = bit_or r.value upper;
}
extend_sign r (some false) upper = record r {
  mask = bit_or r.mask upper;
  value = bit_and r.value (not64 upper);
}

unfoldable pub shr_s_below_64 : Bits → ℕ → Bits
unfolding known upper_bits extend_sign at
shr_s_below_64 b s =
    extend_sign (known b.ty (shr64 b.mask s) (shr64 b.value s)) (at b (type_width b.ty - 1))
      (upper_bits b.ty s)

-- The sign bit of a type with no bits is a shift by SIZE_MAX.
unfoldable pub shr_s_by : Bits → ℕ → Option Bits
unfolding shr_s_below_64
shr_s_by b s = if ltb s 64 && ltb 0 (type_width b.ty) then some (shr_s_below_64 b s) else none

-- `shift_by_const`
unfoldable pub shift_by_const : (Bits → ℕ → Option Bits) → Bits → Bits → Option Bits
unfolding is_const known
shift_by_const f a b = if is_const b then f a b.value else some (known a.ty 0 0)

unfoldable pub shl : Bits → Bits → Option Bits
unfolding shift_by_const shl_by
shl = shift_by_const shl_by

unfoldable pub shr_u : Bits → Bits → Option Bits
unfolding shift_by_const shr_u_by
shr_u = shift_by_const shr_u_by

unfoldable pub shr_s : Bits → Bits → Option Bits
unfolding shift_by_const shr_s_by
shr_s = shift_by_const shr_s_by

unfoldable pub resize_u : Bits → IrType → Bits
unfolding known
resize_u b to =
    known to
      (bit_or (bit_and (bit_and b.mask (type_mask b.ty)) (type_mask to))
        (bit_and (type_mask to) (not64 (type_mask b.ty))))
      (bit_and (bit_and b.value (type_mask b.ty)) (type_mask to))

unfoldable pub resize_s_signed : Bits → IrType → Bits
unfolding known extend_sign at
resize_s_signed b to =
    extend_sign
      (known to (bit_and (bit_and b.mask (type_mask b.ty)) (type_mask to))
        (bit_and (bit_and b.value (type_mask b.ty)) (type_mask to)))
      (at b (type_width b.ty - 1)) (bit_and (type_mask to) (not64 (type_mask b.ty)))

unfoldable pub resize_s : Bits → IrType → Option Bits
unfolding resize_s_signed
resize_s b to = if ltb 0 (type_width b.ty) then some (resize_s_signed b to) else none

unfoldable pub resize_x : Bits → IrType → Bits
unfolding known
resize_x b to = known to (bit_and (bit_and b.mask (type_mask b.ty)) (type_mask to)) b.value

unfoldable pub select : Bits → Bits → Bits → Bits
unfolding is_const known
select c a b =
    if is_const c
    then (if not (c.value == 0) then a else b)
    else known a.ty (bit_and (bit_and a.mask b.mask) (not64 (bit_xor a.value b.value))) a.value

unfoldable pub and_idempotent_condition : Bits → Bits → Bool
and_idempotent_condition a b =
    bit_and (bit_xor b.value (type_mask b.ty)) (bit_or (not64 a.mask) a.value) == 0

unfoldable pub or_idempotent_condition : Bits → Bits → Bool
unfolding and_idempotent_condition
or_idempotent_condition a b = and_idempotent_condition b a
