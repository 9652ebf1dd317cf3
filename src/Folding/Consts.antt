-- ===== src/Folding/Consts.antt =====
-- The propagation of constants, also through selects of constants, in the folds of `Builder`.
use metajit_cpp.Types.{IrType, type_mask}
use metajit_cpp.Folding.{Node, select, build_const, as_konst, when_some}
use metajit_cpp.Base.{ℕ, Bool, Option, none, some, ◌>>=◌, ◌==◌, bit_and, if◌then◌else◌}

-- The recursive functions among the folds. `none` is a run that ends in undefined behaviour, or one
-- that has not ended.
pub record Folds : Type 0 where
  pub select_ : Node → Node → Node → Option Node
  pub and_ : Node → Node → Option Node
  pub or_ : Node → Node → Option Node
  pub xor_ : Node → Node → Option Node

pub record ConstSelect : Type 0 where
  pub cond : Node
  pub true_const : ℕ
  pub false_const : ℕ

unfoldable pub is_const_select : Node → Option ConstSelect
unfolding as_konst
is_const_select (select c a b) = do
  x ← as_konst a
  y ← as_konst b
  some record { cond = c; true_const = x; false_const = y }
is_const_select _ = none

-- The expression of a fold on constants; `none` is undefined behaviour.
abbrev pub ConstProp : Type 0
ConstProp = ℕ → ℕ → Option ℕ

-- `same` is equality of pointers.
module _ (same : Node → Node → Bool) where
  unfoldable pub is_const_select_like : Node → Node → Option ConstSelect
  unfolding as_konst is_const_select
  is_const_select_like value cond =
      when_some (as_konst value) (λ k. some record { cond = cond; true_const = k; false_const = k })
        (when_some (is_const_select value) (λ s. if same s.cond cond then some s else none) none)

  module _ (folds : Folds) where
    -- `fold_select` of two numbers.
    unfoldable pub fold_select_consts : Node → IrType → ℕ → ℕ → Option Node
    unfolding build_const
    fold_select_consts cond t true_value false_value =
        let x = bit_and true_value (type_mask t) in
        let y = bit_and false_value (type_mask t) in
        if x == y
        then some (build_const t x)
        else folds.select_ cond (build_const t x) (build_const t y)

    unfoldable pub select_const_prop : ConstSelect → ConstSelect → IrType → ConstProp → Option Node
    unfolding fold_select_consts
    select_const_prop a b t const_prop = do
      true_prop ← const_prop a.true_const b.true_const
      false_prop ← const_prop a.false_const b.false_const
      fold_select_consts a.cond t true_prop false_prop

    -- `do_binop_const_prop` where not both are constants.
    unfoldable pub selects_const_prop : Node → Node → IrType → ConstProp → Option (Option Node)
    unfolding is_const_select is_const_select_like select_const_prop
    selects_const_prop a b t const_prop =
        when_some (is_const_select a)
          (λ s.
            when_some (is_const_select_like b s.cond)
              (λ u. some (select_const_prop s u t const_prop)) none)
          (when_some (is_const_select b)
            (λ u.
              when_some (is_const_select_like a u.cond)
                (λ s. some (select_const_prop s u t const_prop)) none)
            none)

    -- `none` is the null pointer.
    unfoldable pub do_binop_const_prop : Node → Node → IrType → ConstProp → Option (Option Node)
    unfolding as_konst selects_const_prop build_const
    do_binop_const_prop a b t const_prop =
        when_some (as_konst a)
          (λ x.
            when_some (as_konst b) (λ y. some (do r ← const_prop x y; some (build_const t r)))
              (selects_const_prop a b t const_prop))
          (selects_const_prop a b t const_prop)

    unfoldable pub do_unop_const_prop : Node → IrType → (ℕ → ℕ) → Option (Option Node)
    unfolding as_konst is_const_select fold_select_consts build_const
    do_unop_const_prop a t const_prop =
        when_some (as_konst a) (λ x. some (some (build_const t (const_prop x))))
          (when_some (is_const_select a)
            (λ s.
              some
                (fold_select_consts s.cond t (const_prop s.true_const) (const_prop s.false_const)))
            none)

-- The macros `binop_const_prop` and `unop_const_prop`: the code after them runs on a null pointer.
abbrev pub or_else : Option (Option Node) → Option Node → Option Node
or_else o k = when_some o (λ r. r) k
