-- ===== src/Folding/ArmRules.antt =====
-- The rules of `fold_select` (jitir.tmpl.hpp) for an arm that is the condition.

use metajit_cpp.Types.{IrType, bool}
use metajit_cpp.Ir.{and_inst, or_inst}
use metajit_cpp.Ir.Checks.{binary_checks, binary_type}
use metajit_cpp.Interpreter.Eval as IE
use metajit_cpp.Folding.{Node, binary, node_type, checked}
use metajit_cpp.Folding.Checked.{binary-checked}
use metajit_cpp.Folding.Numbers.{number, Folded}
use metajit_cpp.Folding.Operands.{Fits, number-Fits}
use metajit_cpp.Base.{ℕ, true, Option, some, ◌≡◌, refl, sym, ap, ◌∙◌, bit_and, bit_or, ◌==◌}
use metajit_cpp.Folding.Rules.{and-IsBitwise, or-IsBitwise, bitwise_applied}
use metajit_cpp.Folding.{select}
use metajit_cpp.Folding.Checked.{checked-select}
use metajit_cpp.Base.{if◌then◌else◌, Bool-cases, inl, inr, >>=-eq-some}
use metajit_cpp.Types.{type_width}
use metajit_cpp.Folding.{select}
use metajit_cpp.Folding.Checked.{checked-select}
use metajit_cpp.Base.{zero, suc, if◌then◌else◌, Bool-cases, inl, inr, >>=-eq-some, arith}

or_chosen : (w n : ℕ) → Fits bool w → Fits bool n → (if w == 0 then n else w) ≡ bit_or w n
unfolding type_width
or_chosen zero zero f g = refl
or_chosen zero (suc zero) f g = refl
or_chosen (suc zero) zero f g = refl
or_chosen (suc zero) (suc zero) f g = refl
or_chosen (suc (suc w)) n f g = absurd (omega arith)
or_chosen zero (suc (suc n)) f g = absurd (omega arith)
or_chosen (suc zero) (suc (suc n)) f g = absurd (omega arith)

and_chosen : (w n : ℕ) → Fits bool w → Fits bool n → (if w == 0 then w else n) ≡ bit_and w n
unfolding type_width
and_chosen zero zero f g = refl
and_chosen zero (suc zero) f g = refl
and_chosen (suc zero) zero f g = refl
and_chosen (suc zero) (suc zero) f g = refl
and_chosen (suc (suc w)) n f g = absurd (omega arith)
and_chosen zero (suc (suc n)) f g = absurd (omega arith)
and_chosen (suc zero) (suc (suc n)) f g = absurd (omega arith)

in_arms : (w x y : ℕ) → some (if w == 0 then x else y) ≡ (if w == 0 then some x else some y)
in_arms w x y = elim (Bool-cases (w == 0)) [ inl h ↦ rw h refl | inr h ↦ rw h refl ]

module _ (floats : IE.FloatUnit) (leaves : ℕ → IrType → Option ℕ)
    (leaves-Fit : (n : ℕ) (t : IrType) (v : ℕ) → leaves n t ≡ some v → Fits t v) (z a b : Node)
    (c : checked (select z a b) ≡ true) (of_bool : node_type a ≡ bool) where
  pub or_arm-checked : checked (binary or_inst z b) ≡ true
  or_arm-checked =
      let j = checked-select z a b c in
      binary-checked or_inst z b record {
        of_types = rw (j.of_cond, sym j.of_arms ∙ of_bool) (unfold binary_checks in refl);
        left = j.cond;
        right = j.right;
      }

  pub and_arm-checked : checked (binary and_inst z a) ≡ true
  and_arm-checked =
      let j = checked-select z a b c in
      binary-checked and_inst z a record {
        of_types = rw (j.of_cond, of_bool) (unfold binary_checks in refl);
        left = j.cond;
        right = j.left;
      }

  -- `x ? x : b` where `b` is a number
  pub or_arm_rule :
      (n : ℕ)
      → z ≡ a
      → number floats leaves b ≡ some n
      → Folded floats leaves (select z a b) (binary or_inst z b)
  unfolding number node_type binary_type
  or_arm_rule n e h =
      let j = checked-select z a b c in
      record {
        typed = j.of_cond ∙ sym of_bool;
        checks = or_arm-checked;
        same_number = λ v d.
            let (w, p, q) = >>=-eq-some (number floats leaves z) _ d in
            let l : Fits (node_type z) w = number-Fits floats leaves leaves-Fit z w j.cond p in
            let m : Fits (node_type z) n =
              rw (j.of_cond, sym of_bool, j.of_arms)
                (number-Fits floats leaves leaves-Fit b n j.right h) in
            let s : (if w == 0 then some n else some w) ≡ some v =
              rw (h, ap (number floats leaves) (sym e) ∙ p) at q in
            bitwise_applied floats leaves leaves-Fit or_inst bit_or (or-IsBitwise floats) z b w n
              (j.of_cond ∙ sym of_bool ∙ j.of_arms) p h l m
            ∙ ap some (sym (or_chosen w n (rw j.of_cond at l) (rw j.of_cond at m)))
            ∙ in_arms w n w
            ∙ s;
      }

  -- `x ? a : x` where `a` is a number
  pub and_arm_rule :
      (n : ℕ)
      → z ≡ b
      → number floats leaves a ≡ some n
      → Folded floats leaves (select z a b) (binary and_inst z a)
  unfolding number node_type binary_type
  and_arm_rule n e h =
      let j = checked-select z a b c in
      record {
        typed = j.of_cond ∙ sym of_bool;
        checks = and_arm-checked;
        same_number = λ v d.
            let (w, p, q) = >>=-eq-some (number floats leaves z) _ d in
            let l : Fits (node_type z) w = number-Fits floats leaves leaves-Fit z w j.cond p in
            let m : Fits (node_type z) n =
              rw (j.of_cond, sym of_bool) (number-Fits floats leaves leaves-Fit a n j.left h) in
            let s : (if w == 0 then some w else some n) ≡ some v =
              rw (h, ap (number floats leaves) (sym e) ∙ p) at q in
            bitwise_applied floats leaves leaves-Fit and_inst bit_and (and-IsBitwise floats) z a w n
              (j.of_cond ∙ sym of_bool) p h l m
            ∙ ap some (sym (and_chosen w n (rw j.of_cond at l) (rw j.of_cond at m)))
            ∙ in_arms w w n
            ∙ s;
      }
