-- ===== src/Folding/Bitwise.antt =====
-- `fold_select`, `fold_and`, `fold_or`, `fold_xor` and `fold_not` of `Builder`, which call each other.
use metajit_cpp.Types.{bool, type_mask, same_type}
use metajit_cpp.Ir.{and_inst, or_inst, xor_inst}
use metajit_cpp.Folding.{
  Node, konst, leaf, binary, select, resize_u, resize_s, resize_x, ptr_to_int, node_type,
  build_const, as_konst, is_konst, when_some,
}
use metajit_cpp.Folding.Consts.{Folds, do_binop_const_prop, or_else}
use metajit_cpp.Base.{
  ℕ, zero, suc, ◌+◌, ◌*◌, Bool, ◌&&◌, Option, none, some, ◌==◌, bit_and, bit_or, bit_xor,
  if◌then◌else◌,
}

-- `is_not`: the operand of the inversion.
unfoldable pub is_not : Node → Option Node
is_not (binary xor_inst a (konst t v)) = if v == type_mask (node_type a) then some a else none
is_not _ = none

-- The operands of a select.
unfoldable pub as_select : Node → Option (Node × Node × Node)
as_select (select c a b) = some (c, a, b)
as_select _ = none

-- `x` of `x | (y & m1)`, where `m1 & m2` is 0.
unfoldable pub masked_or : ℕ → Node → Option Node
masked_or m2 (binary or_inst x (binary and_inst y (konst t m1))) =
    if bit_and m1 m2 == 0 then some x else none
masked_or m2 _ = none

-- `x` and `c` of `x & c`.
unfoldable pub as_masked : Node → Option (Node × ℕ)
as_masked (binary and_inst x (konst t c)) = some (x, c)
as_masked _ = none

module _ (same : Node → Node → Bool) where
  -- The last rules of `fold_and`.
  unfoldable pub and_nots : Node → Node → Node
  unfolding is_not build_const
  and_nots a b =
      when_some (is_not a)
        (λ x. if same x b then build_const (node_type a) 0 else binary and_inst a b)
        (when_some (is_not b)
          (λ x. if same x a then build_const (node_type a) 0 else binary and_inst a b)
          (binary and_inst a b))

  module _ (folds : Folds) where
    -- `fold_and` after the swap.
    unfoldable pub and_swapped : Node → Node → Option Node
    unfolding do_binop_const_prop as_konst masked_or and_nots
    and_swapped a b =
        if same a b
        then some a
        else or_else (do_binop_const_prop same folds a b (node_type a) (λ x y. some (bit_and x y)))
            (when_some (as_konst b)
              (λ v.
                if v == type_mask (node_type a)
                then some a
                else if v == 0
                then some b
                else when_some (masked_or v a) (λ x. folds.and_ x b) (some (and_nots a b)))
              (some (and_nots a b)))

    unfoldable pub fold_and_step : Node → Node → Option Node
    unfolding and_swapped is_konst
    fold_and_step a b = if is_konst a then and_swapped b a else and_swapped a b

    -- `(x & c1) | (x & c2)` in `fold_or`.
    unfoldable pub or_masked : Node → Node → Option Node
    unfolding as_masked build_const
    or_masked a b =
        when_some (as_masked a)
          (λ p.
            when_some (as_masked b)
              (λ q.
                if same p.0 q.0
                then folds.and_ p.0 (build_const (node_type a) (bit_or p.1 q.1))
                else some (binary or_inst a b))
              (some (binary or_inst a b)))
          (some (binary or_inst a b))

    -- `fold_or` after the swap.
    unfoldable pub or_swapped : Node → Node → Option Node
    unfolding do_binop_const_prop as_konst or_masked
    or_swapped a b =
        if same a b
        then some a
        else or_else (do_binop_const_prop same folds a b (node_type a) (λ x y. some (bit_or x y))) (
            when_some (as_konst b)
              (λ v.
                if v == 0
                then some a
                else if v == type_mask (node_type a)
                then some b
                else some (binary or_inst a b))
              (or_masked a b))

    unfoldable pub fold_or_step : Node → Node → Option Node
    unfolding or_swapped is_konst
    fold_or_step a b = if is_konst a then or_swapped b a else or_swapped a b

    -- `fold_xor` after the swap.
    unfoldable pub xor_swapped : Node → Node → Option Node
    unfolding do_binop_const_prop as_konst is_not
    xor_swapped a b =
        or_else (do_binop_const_prop same folds a b (node_type a) (λ x y. some (bit_xor x y))) (
          when_some (as_konst b)
            (λ v.
              if v == 0
              then some a
              else if v == type_mask (node_type a)
              then when_some (is_not a) (λ x. some x) (some (binary xor_inst a b))
              else some (binary xor_inst a b))
            (some (binary xor_inst a b)))

    unfoldable pub fold_xor_step : Node → Node → Option Node
    unfolding xor_swapped is_konst
    fold_xor_step a b = if is_konst a then xor_swapped b a else xor_swapped a b

    -- The last rules of `fold_select`: selects of the same condition below this one.
    unfoldable pub select_nested : Node → Node → Node → Option Node
    unfolding as_select
    select_nested cond true_value false_value =
        let inner =
          when_some (as_select false_value)
            (λ s.
              if same s.0 cond
              then folds.select_ cond true_value s.2
              else some (select cond true_value false_value))
            (some (select cond true_value false_value)) in
        when_some (as_select true_value)
          (λ s. if same s.0 cond then folds.select_ cond s.1 false_value else inner) inner

    -- The rules of `fold_select` on Booleans.
    unfoldable pub select_bool : Node → Node → Node → Option Node
    unfolding select_nested
    select_bool cond true_value false_value =
        if same cond true_value
        then folds.or_ cond false_value
        else if same cond false_value
        then folds.and_ cond true_value
        else select_nested cond true_value false_value

    unfoldable pub select_bool_consts : Node → Node → Node → Option Node
    unfolding select_bool as_konst build_const
    select_bool_consts cond true_value false_value =
        when_some (as_konst true_value)
          (λ x.
            when_some (as_konst false_value)
              (λ y.
                if x == 1 && y == 0
                then some cond
                else if x == 0 && y == 1
                then folds.xor_ cond (build_const bool 1)
                else select_bool cond true_value false_value)
              (select_bool cond true_value false_value))
          (select_bool cond true_value false_value)

    -- `fold_select` after the swap.
    unfoldable pub select_swapped : Node → Node → Node → Option Node
    unfolding select_bool_consts select_nested same_type
    select_swapped cond true_value false_value =
        if same_type (node_type true_value) bool
        then select_bool_consts cond true_value false_value
        else select_nested cond true_value false_value

    unfoldable pub fold_select_step : Node → Node → Node → Option Node
    unfolding select_swapped as_konst is_not
    fold_select_step cond true_value false_value =
        when_some (as_konst cond) (λ v. if v == 0 then some false_value else some true_value)
          (if same true_value false_value
            then some true_value
            else when_some (is_not cond) (λ x. select_swapped x false_value true_value)
                (select_swapped cond true_value false_value))

  -- The functions, with their calls of each other cut off at a depth.
  unfoldable pub folds_to : ℕ → Folds
  unfolding fold_select_step fold_and_step fold_or_step fold_xor_step
  folds_to zero = record {
    select_ = λ c a b. none;
    and_ = λ a b. none;
    or_ = λ a b. none;
    xor_ = λ a b. none;
  }
  folds_to (suc n) =
      let rest = folds_to n in
      record {
        select_ = fold_select_step rest;
        and_ = fold_and_step rest;
        or_ = fold_or_step rest;
        xor_ = fold_xor_step rest;
      }

-- The depth that a value can need.
unfoldable pub size : Node → ℕ
size (konst t v) = 0
size (leaf n t) = 1
size (binary o a b) = 1 + size a + size b
size (select c a b) = 1 + size c + size a + size b
size (resize_u a t) = 1 + size a
size (resize_s a t) = 1 + size a
size (resize_x a t) = 1 + size a
size (ptr_to_int a t) = 1 + size a

module _ (same : Node → Node → Bool) where
  unfoldable pub fold_and : Node → Node → Option Node
  unfolding folds_to size
  fold_and a b = (folds_to same (1 + 2 * (size a + size b))).and_ a b

  unfoldable pub fold_or : Node → Node → Option Node
  unfolding folds_to size
  fold_or a b = (folds_to same (1 + 2 * (size a + size b))).or_ a b

  unfoldable pub fold_xor : Node → Node → Option Node
  unfolding folds_to size
  fold_xor a b = (folds_to same (1 + 2 * (size a + size b))).xor_ a b

  unfoldable pub fold_select : Node → Node → Node → Option Node
  unfolding folds_to size
  fold_select c a b = (folds_to same (2 + 2 * (size c + (size a + size b)))).select_ c a b

  unfoldable pub fold_not : Node → Option Node
  unfolding fold_xor build_const node_type
  fold_not a = fold_xor a (build_const (node_type a) (type_mask (node_type a)))
