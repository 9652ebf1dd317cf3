-- ===== src/Folding/Sound.antt =====
-- The folds of `Builder` that call each other (jitir.tmpl.hpp) against the interpreter.

use metajit_cpp.Types.{IrType}
use metajit_cpp.Ir.{and_inst, or_inst, xor_inst}
use metajit_cpp.Ir.Checks.{binary_checks}
use metajit_cpp.Interpreter.Eval as IE
use metajit_cpp.Folding.{Node, binary, node_type, checked}
use metajit_cpp.Folding.Checked.{checked-binary, binary-checked}
use metajit_cpp.Folding.Numbers.{Folds-to}
use metajit_cpp.Folding.Operands.{Fits}
use metajit_cpp.Base.{ℕ, Bool, true, Option, some, ◌≡◌, ◌∙◌, ◌==◌}
use metajit_cpp.Folding.{select}
use metajit_cpp.Folding.Checked.{checked-select}
use metajit_cpp.Base.{inl, inr}
use metajit_cpp.Folding.{select, as_konst}
use metajit_cpp.Folding.Cases.{when_some_cases, if_cases}
use metajit_cpp.Folding.Checked.{checked-select}
use metajit_cpp.Folding.Consts.{Folds}
use metajit_cpp.Folding.Bitwise.{
  size, is_not, fold_select_step, folds_to, fold_select, fold_and, fold_or, fold_xor,
}
use metajit_cpp.Folding.ConstProp.{as_konst-eq}
use metajit_cpp.Folding.Good.{Safe, Selects-to, Good}
use metajit_cpp.Folding.AndStep.{is_not-eq, left-size, fold_and_step-Folds}
use metajit_cpp.Folding.OrStep.{fold_or_step-Folds, fold_xor_step-Folds}
use metajit_cpp.Folding.SelectRules.{true_rule, false_rule, same_arms_rule}
use metajit_cpp.Folding.BoolRules.{not_rule}
use metajit_cpp.Folding.SelectStep.{selects_done, selects_then, select_swapped-Selects}
use metajit_cpp.Base.{zero, suc, ◌+◌, ◌*◌, ◌<◌, inl, inr, arith}

swap-Safe : (a b : Node) → node_type a ≡ node_type b → Safe a b → Safe b a
swap-Safe a b t (inl f) = inl (λ g. f (t ∙ g))
swap-Safe a b t (inr p) = inr (p.1, p.0)

module _ (floats : IE.FloatUnit) (leaves : ℕ → IrType → Option ℕ)
    (leaves-Fit : (n : ℕ) (t : IrType) (v : ℕ) → leaves n t ≡ some v → Fits t v)
    (same : Node → Node → Bool) (same-eq : (x y : Node) → same x y ≡ true → x ≡ y) where
  fold_select_step-Selects :
      (folds : Folds) (n : ℕ)
      → Good floats leaves folds n
      → (z a b : Node) → 2 * (size z + (size a + size b)) + 1 < suc n
      → checked (select z a b) ≡ true
      → Selects-to floats leaves z a b (fold_select_step same folds z a b)
  unfolding fold_select_step size
  fold_select_step-Selects folds n good z a b d c =
      let P : Option Node → Type 0 = Selects-to floats leaves z a b in
      let k = selects_done floats leaves leaves-Fit z a b in
      when_some_cases P (as_konst z) _ _
        (λ v p.
          let e = as_konst-eq z v p in
          if_cases P (v == 0) _ _
            (λ h. k b (false_rule floats leaves leaves-Fit z a b c (node_type z) v e h))
            (λ h. k a (true_rule floats leaves leaves-Fit z a b c (node_type z) v e h)))
        (if_cases P (same a b) _ _
          (λ e. k a (same_arms_rule floats leaves leaves-Fit z a b c (same-eq a b e)))
          (λ _.
            when_some_cases P (is_not z) _ _
              (λ x p.
                let (t, e) = is_not-eq z x p in
                let h = not_rule floats leaves leaves-Fit z a b c x t e in
                let s = left-size z xor_inst x _ e in
                selects_then floats leaves leaves-Fit z a b x b a _ h
                  (swap-Safe a b (checked-select z a b c).of_arms)
                  (select_swapped-Selects floats leaves leaves-Fit same same-eq folds n good x b a
                    (omega arith) h.checks))
              (select_swapped-Selects floats leaves leaves-Fit same same-eq folds n good z a b d
                c)))

  folds_to-Good : (n : ℕ) → Good floats leaves (folds_to same n) n
  unfolding folds_to
  folds_to-Good zero = record {
    selects = λ z a b d c. absurd (omega arith);
    ands = λ a b d c. absurd (omega arith);
    ors = λ a b d c. absurd (omega arith);
    xors = λ a b d c. absurd (omega arith);
  }
  folds_to-Good (suc n) =
      let rest = folds_to-Good n in
      record {
        selects = fold_select_step-Selects (folds_to same n) n rest;
        ands = fold_and_step-Folds floats leaves leaves-Fit same same-eq (folds_to same n) n rest;
        ors = fold_or_step-Folds floats leaves leaves-Fit same same-eq (folds_to same n) n rest;
        xors = fold_xor_step-Folds floats leaves leaves-Fit same same-eq (folds_to same n) n rest;
      }

  pub fold_and-Folds-to :
      (a b : Node)
      → checked (binary and_inst a b) ≡ true
      → Folds-to floats leaves (binary and_inst a b) (fold_and same a b)
  unfolding fold_and
  fold_and-Folds-to a b c = (folds_to-Good (1 + 2 * (size a + size b))).ands a b (omega arith) c

  pub fold_or-Folds-to :
      (a b : Node)
      → checked (binary or_inst a b) ≡ true
      → Folds-to floats leaves (binary or_inst a b) (fold_or same a b)
  unfolding fold_or
  fold_or-Folds-to a b c = (folds_to-Good (1 + 2 * (size a + size b))).ors a b (omega arith) c

  pub fold_xor-Folds-to :
      (a b : Node)
      → checked (binary xor_inst a b) ≡ true
      → Folds-to floats leaves (binary xor_inst a b) (fold_xor same a b)
  unfolding fold_xor
  fold_xor-Folds-to a b c = (folds_to-Good (1 + 2 * (size a + size b))).xors a b (omega arith) c

  -- `fold_select`, with the folds that it calls and that call it, ends on every condition and arms
  -- that pass the checks of a select, under the assumptions on pointers and on the values that no
  -- fold looks into. Its result passes the checks and has the type of the arms, and where the arms
  -- are not Booleans, or both constants, it holds each number that the interpreter gives the
  -- select.
  pub fold_select-Selects-to :
      (z a b : Node)
      → checked (select z a b) ≡ true
      → Selects-to floats leaves z a b (fold_select same z a b)
  unfolding fold_select
  fold_select-Selects-to z a b c =
      (folds_to-Good (2 + 2 * (size z + (size a + size b)))).selects z a b (omega arith) c

  -- `fold_and`, `fold_or` and `fold_xor` end and give a value that may stand for the instruction:
  -- if the operands pass the instruction's type checks, equal pointers are equal values, and the
  -- values that no fold looks into hold numbers of their types, then the result passes the checks,
  -- has the instruction's type, and holds each number (not poison) that the interpreter gives the
  -- instruction.
  pub bitwise_folds :
      (a b : Node)
      → checked (binary and_inst a b) ≡ true
      → Folds-to floats leaves (binary and_inst a b) (fold_and same a b)
        × Folds-to floats leaves (binary or_inst a b) (fold_or same a b)
        × Folds-to floats leaves (binary xor_inst a b) (fold_xor same a b)
  unfolding binary_checks
  bitwise_folds a b c =
      let k = checked-binary and_inst a b c in
      let o =
        binary-checked or_inst a b
          record { of_types = k.of_types; left = k.left; right = k.right } in
      let x =
        binary-checked xor_inst a b
          record { of_types = k.of_types; left = k.left; right = k.right } in
      (fold_and-Folds-to a b c, fold_or-Folds-to a b o, fold_xor-Folds-to a b x)
