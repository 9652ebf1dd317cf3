-- ===== src/Folding/Effects.antt =====
-- `fold_jump`, `fold_branch`, `fold_load` and `fold_store` of `Builder`.
use metajit_cpp.Types.{IrType}
use metajit_cpp.Word.Signed.{ℤ}
use metajit_cpp.Word.Ops.{add64}
use metajit_cpp.Folding.{Node, when_some}
use metajit_cpp.Folding.Bitwise.{is_not}
use metajit_cpp.Folding.Arith.{as_add_ptr_const}
use metajit_cpp.Base.{ℕ}

-- The instructions that are built; blocks and flags by their numbers.
pub data Effect : Type 0 where
  jump : ℕ → Effect
  branch : Node → ℕ → ℕ → Effect
  load : Node → IrType → ℕ → ℤ → ℕ → Effect
  store : Node → Node → ℤ → ℕ → Effect

unfoldable pub fold_jump : ℕ → Effect
fold_jump block = jump block

unfoldable pub fold_branch : Node → ℕ → ℕ → Effect
unfolding is_not
fold_branch cond true_block false_block =
    when_some (is_not cond) (λ x. branch x false_block true_block)
      (branch cond true_block false_block)

unfoldable pub fold_load : Node → IrType → ℕ → ℤ → ℕ → Effect
unfolding as_add_ptr_const add64
fold_load p t flags aliasing offset =
    when_some (as_add_ptr_const p) (λ q. load q.0 t flags aliasing (add64 offset q.1))
      (load p t flags aliasing offset)

unfoldable pub fold_store : Node → Node → ℤ → ℕ → Effect
unfolding as_add_ptr_const add64
fold_store p value aliasing offset =
    when_some (as_add_ptr_const p) (λ q. store q.0 value aliasing (add64 offset q.1))
      (store p value aliasing offset)
