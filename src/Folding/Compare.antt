-- ===== src/Folding/Compare.antt =====
-- The comparisons among the folds of `Builder`.
use metajit_cpp.Types.{bool, same_type}
use metajit_cpp.Ir.{xor_inst, eq_inst, lt_s_inst, lt_u_inst}
use metajit_cpp.Folding.{Node, binary, node_type, build_const, as_konst, is_konst, when_some}
use metajit_cpp.Folding.Consts.{do_binop_const_prop, or_else}
use metajit_cpp.Folding.Bitwise.{fold_not, size}
use metajit_cpp.Folding.Arith.{all_folds}
use metajit_cpp.Base.{ℕ, zero, suc, ◌+◌, Bool, Option, none, some, ◌==◌, ltb, if◌then◌else◌, ◌>>=◌}

-- The operands of an exclusive or.
unfoldable pub as_xor : Node → Option (Node × Node)
as_xor (binary xor_inst x y) = some (x, y)
as_xor _ = none

module _ (same : Node → Node → Bool) where
  -- `fold_eq` of a value and a constant; `again` is its call of itself.
  unfoldable pub eq_const : (Node → Node → Option Node) → Node → Node → ℕ → Option Node
  unfolding same_type fold_not as_xor
  eq_const again a b v =
      if same_type (node_type a) bool
      then (if v == 0 then fold_not same a else some a)
      else if v == 0
      then when_some (as_xor a) (λ p. again p.0 p.1) (some (binary eq_inst a b))
      else some (binary eq_inst a b)

  -- `fold_eq` after the swap.
  unfoldable pub eq_swapped : (Node → Node → Option Node) → Node → Node → Option Node
  unfolding build_const do_binop_const_prop all_folds as_konst eq_const
  eq_swapped again a b =
      if same a b
      then some (build_const bool 1)
      else or_else
          (do_binop_const_prop same (all_folds same) a b bool
            (λ x y. some (if x == y then 1 else 0)))
          (when_some (as_konst b) (λ v. eq_const again a b v) (some (binary eq_inst a b)))

  unfoldable pub fold_eq_to : ℕ → Node → Node → Option Node
  unfolding eq_swapped is_konst
  fold_eq_to zero a b = none
  fold_eq_to (suc n) a b =
      let again = fold_eq_to n in if is_konst a then eq_swapped again b a else eq_swapped again a b

  unfoldable pub fold_eq : Node → Node → Option Node
  unfolding fold_eq_to size
  fold_eq a b = fold_eq_to (1 + (size a + size b)) a b

  unfoldable pub fold_ne : Node → Node → Option Node
  unfolding fold_eq fold_not
  fold_ne a b = do r ← fold_eq a b; fold_not same r

  unfoldable pub fold_lt_s : Node → Node → Option Node
  fold_lt_s a b = some (binary lt_s_inst a b)

  unfoldable pub fold_lt_u : Node → Node → Option Node
  unfolding build_const do_binop_const_prop all_folds as_konst
  fold_lt_u a b =
      or_else
        (do_binop_const_prop same (all_folds same) a b bool
          (λ x y. some (if ltb x y then 1 else 0)))
        (when_some (as_konst b)
          (λ v. some (if v == 0 then build_const bool 0 else binary lt_u_inst a b))
          (some (binary lt_u_inst a b)))

  unfoldable pub fold_gt_s : Node → Node → Option Node
  unfolding fold_lt_s
  fold_gt_s a b = fold_lt_s b a

  unfoldable pub fold_gt_u : Node → Node → Option Node
  unfolding fold_lt_u
  fold_gt_u a b = fold_lt_u b a

  unfoldable pub fold_le_s : Node → Node → Option Node
  unfolding fold_gt_s fold_not
  fold_le_s a b = do r ← fold_gt_s a b; fold_not same r

  unfoldable pub fold_le_u : Node → Node → Option Node
  unfolding fold_gt_u fold_not
  fold_le_u a b = do r ← fold_gt_u a b; fold_not same r

  unfoldable pub fold_ge_s : Node → Node → Option Node
  unfolding fold_le_s
  fold_ge_s a b = fold_le_s b a

  unfoldable pub fold_ge_u : Node → Node → Option Node
  unfolding fold_le_u
  fold_ge_u a b = fold_le_u b a
