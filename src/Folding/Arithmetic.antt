-- ===== src/Folding/Arithmetic.antt =====
-- `fold_add`, `fold_sub`, `fold_mul` and `fold_mod_u` of `Builder` (jitir.tmpl.hpp) together.

use metajit_cpp.Types.{IrType}
use metajit_cpp.Ir.Checks.{binary_checks}
use metajit_cpp.Interpreter.Eval as IE
use metajit_cpp.Folding.{Node, binary, checked}
use metajit_cpp.Folding.Checked.{checked-binary, binary-checked}
use metajit_cpp.Folding.Numbers.{Folds-to}
use metajit_cpp.Folding.Operands.{Fits}
use metajit_cpp.Base.{ℕ, Bool, true, Option, some, ◌≡◌}
use metajit_cpp.Ir.{add_inst, sub_inst, mul_inst, mod_u_inst}
use metajit_cpp.Folding.Arith.{fold_add, fold_sub, fold_mul, fold_mod_u}
use metajit_cpp.Folding.Sums.{fold_add-Folds-to}
use metajit_cpp.Folding.Products.{fold_sub-Folds-to, fold_mul-Folds-to}
use metajit_cpp.Folding.Remainder.{fold_mod_u-Folds-to}

module _ (floats : IE.FloatUnit) (leaves : ℕ → IrType → Option ℕ)
    (leaves-Fit : (n : ℕ) (t : IrType) (v : ℕ) → leaves n t ≡ some v → Fits t v)
    (same : Node → Node → Bool) (same-eq : (x y : Node) → same x y ≡ true → x ≡ y) where
  -- `fold_add`, `fold_sub`, `fold_mul` and `fold_mod_u` end and give a value that may stand for
  -- the instruction: if the operands pass the type checks, equal pointers are equal values, and
  -- the values that no fold looks into hold numbers of their types, then the result passes the
  -- checks, has the instruction's type, and holds each number that the interpreter gives the
  -- instruction, with the wrap-around of the type.
  pub arithmetic_folds :
      (a b : Node)
      → checked (binary add_inst a b) ≡ true
      → Folds-to floats leaves (binary add_inst a b) (fold_add same a b)
        × Folds-to floats leaves (binary sub_inst a b) (fold_sub same a b)
        × Folds-to floats leaves (binary mul_inst a b) (fold_mul same a b)
        × Folds-to floats leaves (binary mod_u_inst a b) (fold_mod_u same a b)
  unfolding binary_checks
  arithmetic_folds a b c =
      let k = checked-binary add_inst a b c in
      let s =
        binary-checked sub_inst a b
          record { of_types = k.of_types; left = k.left; right = k.right } in
      let m =
        binary-checked mul_inst a b
          record { of_types = k.of_types; left = k.left; right = k.right } in
      let r =
        binary-checked mod_u_inst a b
          record { of_types = k.of_types; left = k.left; right = k.right } in
      (
        fold_add-Folds-to floats leaves leaves-Fit same same-eq a b c,
        fold_sub-Folds-to floats leaves leaves-Fit same same-eq a b s,
        fold_mul-Folds-to floats leaves leaves-Fit same same-eq a b m,
        fold_mod_u-Folds-to floats leaves leaves-Fit same same-eq a b r,
      )
