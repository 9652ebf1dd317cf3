-- ===== src/Folding/Arith.antt =====
-- `fold_add`, `fold_sub`, `fold_mul`, `fold_mod_u` and `fold_add_ptr` of `Builder`, the folds that
-- only build, and the folds of resizes.
use metajit_cpp.Types.{IrType, int64, type_mask, same_type}
use metajit_cpp.Ir.{
  add_inst, sub_inst, mul_inst, mod_u_inst, div_s_inst, div_u_inst, mod_s_inst, add_ptr_inst,
}
use metajit_cpp.Word.Ops.{add64, sub64, mul64}
use metajit_cpp.Folding.{
  Node, konst, binary, resize_u, resize_s, resize_x, ptr_to_int, node_type, build_const, as_konst,
  is_konst, when_some,
}
use metajit_cpp.Folding.Consts.{Folds, do_binop_const_prop, do_unop_const_prop, or_else}
use metajit_cpp.Folding.Bitwise.{fold_select, fold_and, fold_or, fold_xor, size}
use metajit_cpp.Base.{
  ℕ, zero, suc, ◌+◌, Bool, not, ◌&&◌, Option, none, some, ◌==◌, bit_and, if◌then◌else◌, ◌>>=◌,
}

-- `x` and `c` of `x + c`.
unfoldable pub as_add_const : Node → Option (Node × ℕ)
as_add_const (binary add_inst x (konst t c)) = some (x, c)
as_add_const _ = none

-- The same of an offset pointer.
unfoldable pub as_add_ptr_const : Node → Option (Node × ℕ)
as_add_ptr_const (binary add_ptr_inst x (konst t c)) = some (x, c)
as_add_ptr_const _ = none

-- `x` of a widened or truncated `x` with undefined upper bits.
unfoldable pub as_resize_x : Node → Option Node
as_resize_x (resize_x a t) = some a
as_resize_x _ = none

unfoldable pub is_power_of_two : ℕ → Bool
unfolding sub64
is_power_of_two value = not (value == 0) && bit_and value (sub64 value 1) == 0

module _ (same : Node → Node → Bool) where
  -- The functions that the propagation of constants calls.
  unfoldable pub all_folds : Folds
  unfolding fold_select fold_and fold_or fold_xor
  all_folds = record {
    select_ = fold_select same;
    and_ = fold_and same;
    or_ = fold_or same;
    xor_ = fold_xor same;
  }

  unfoldable pub add_rest : Node → Node → Option Node
  unfolding do_binop_const_prop all_folds add64
  add_rest a b =
      or_else (do_binop_const_prop same all_folds a b (node_type a) (λ x y. some (add64 x y)))
        (some (binary add_inst a b))

  -- `fold_add` after the swap; `again` is its call of itself.
  unfoldable pub add_swapped : (Node → Node → Option Node) → Node → Node → Option Node
  unfolding add_rest as_konst as_add_const build_const add64
  add_swapped again a b =
      when_some (as_konst b)
        (λ v.
          if v == 0
          then some a
          else when_some (as_add_const a)
              (λ p.
                again p.0
                  (build_const (node_type a) (bit_and (add64 p.1 v) (type_mask (node_type a)))))
              (add_rest a b))
        (add_rest a b)

  unfoldable pub fold_add_to : ℕ → Node → Node → Option Node
  unfolding add_swapped is_konst
  fold_add_to zero a b = none
  fold_add_to (suc n) a b =
      let again = fold_add_to n in
      if is_konst a then add_swapped again b a else add_swapped again a b

  -- Each call has one addition less below it.
  unfoldable pub fold_add : Node → Node → Option Node
  unfolding fold_add_to size
  fold_add a b = fold_add_to (1 + (size a + size b)) a b

  unfoldable pub fold_sub : Node → Node → Option Node
  unfolding fold_add do_binop_const_prop all_folds as_konst build_const sub64
  fold_sub a b =
      when_some (as_konst b)
        (λ v. if v == 0 then some a else fold_add a (build_const (node_type b) (sub64 0 v)))
        (or_else (do_binop_const_prop same all_folds a b (node_type a) (λ x y. some (sub64 x y)))
          (some (binary sub_inst a b)))

  unfoldable pub mul_rest : Node → Node → Option Node
  unfolding do_binop_const_prop all_folds mul64
  mul_rest a b =
      or_else (do_binop_const_prop same all_folds a b (node_type a) (λ x y. some (mul64 x y)))
        (some (binary mul_inst a b))

  -- `fold_mul` after the swap.
  unfoldable pub mul_swapped : Node → Node → Option Node
  unfolding mul_rest as_konst
  mul_swapped a b =
      when_some (as_konst b)
        (λ v. if v == 0 then some b else if v == 1 then some a else mul_rest a b) (mul_rest a b)

  unfoldable pub fold_mul : Node → Node → Option Node
  unfolding mul_swapped is_konst
  fold_mul a b = if is_konst a then mul_swapped b a else mul_swapped a b

  unfoldable pub fold_div_s : Node → Node → Option Node
  fold_div_s a b = some (binary div_s_inst a b)

  unfoldable pub fold_div_u : Node → Node → Option Node
  fold_div_u a b = some (binary div_u_inst a b)

  unfoldable pub fold_mod_s : Node → Node → Option Node
  fold_mod_s a b = some (binary mod_s_inst a b)

  unfoldable pub fold_mod_u : Node → Node → Option Node
  unfolding fold_and as_konst build_const is_power_of_two sub64
  fold_mod_u a b =
      when_some (as_konst b)
        (λ v.
          if is_power_of_two v
          then fold_and same a (build_const (node_type a) (sub64 v 1))
          else some (binary mod_u_inst a b))
        (some (binary mod_u_inst a b))

  unfoldable pub fold_add_ptr : Node → Node → Option Node
  unfolding as_konst as_add_ptr_const build_const add64
  fold_add_ptr p offset =
      when_some (as_konst offset)
        (λ v.
          if v == 0
          then some p
          else when_some (as_add_ptr_const p)
              (λ q. some (binary add_ptr_inst q.0 (build_const int64 (add64 q.1 v))))
              (some (binary add_ptr_inst p offset)))
        (some (binary add_ptr_inst p offset))

  -- The overload for a number.
  unfoldable pub fold_add_ptr_number : Node → ℕ → Option Node
  unfolding fold_add_ptr build_const
  fold_add_ptr_number p offset =
      if offset == 0 then some p else fold_add_ptr p (build_const int64 offset)

  -- The overload for an index and a stride.
  unfoldable pub fold_add_ptr_stride : Node → Node → ℕ → Option Node
  unfolding fold_add_ptr fold_mul build_const
  fold_add_ptr_stride p index stride = do
    offset ← (if stride == 1 then some index else fold_mul index (build_const int64 stride))
    fold_add_ptr p offset

  unfoldable pub fold_resize_u : Node → IrType → Option Node
  unfolding same_type as_konst build_const as_resize_x fold_and do_unop_const_prop all_folds
  fold_resize_u a t =
      let rest = or_else (do_unop_const_prop same all_folds a t (λ x. x)) (some (resize_u a t)) in
      if same_type (node_type a) t
      then some a
      else when_some (as_konst a) (λ v. some (build_const t (bit_and v (type_mask t))))
          (when_some (as_resize_x a)
            (λ x.
              if same_type (node_type x) t
              then fold_and same x (build_const t (type_mask (node_type a)))
              else rest)
            rest)

  unfoldable pub fold_resize_s : Node → IrType → Option Node
  unfolding same_type
  fold_resize_s a t = some (if same_type (node_type a) t then a else resize_s a t)

  unfoldable pub fold_resize_x : Node → IrType → Option Node
  unfolding same_type do_unop_const_prop all_folds
  fold_resize_x a t =
      if same_type (node_type a) t
      then some a
      else or_else (do_unop_const_prop same all_folds a t (λ x. x)) (some (resize_x a t))

  unfoldable pub fold_ptr_to_int : Node → IrType → Option Node
  fold_ptr_to_int a t = some (ptr_to_int a t)
