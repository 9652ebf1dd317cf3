-- ===== src/Folding/Remainder.antt =====
-- `fold_mod_u` of `Builder` (jitir.tmpl.hpp) against the interpreter.

use metajit_cpp.Types.{IrType}
use metajit_cpp.Ir.{and_inst}
use metajit_cpp.Ir.Checks.{binary_checks, binary_type, same_type→eq}
use metajit_cpp.Interpreter.Eval as IE
use metajit_cpp.Soundness.Operators.{masked_self}
use metajit_cpp.Word.Mask.{and-lt_left}
use metajit_cpp.Folding.{Node, binary, node_type, checked, build_const}
use metajit_cpp.Folding.Checked.{checked-binary, binary-checked}
use metajit_cpp.Folding.Numbers.{number, Folded, Folds-to}
use metajit_cpp.Folding.Operands.{Fits, cut, number-Fits}
use metajit_cpp.Folding.ConstProp.{build_const-checked, build_const-type, number-build_const}
use metajit_cpp.Base.{
  ℕ, Bool, true, Option, some, ◌≡◌, refl, sym, ap, ◌∙◌, some_eq, bit_and, ◌==◌, ==→eq,
}
use metajit_cpp.Folding.Rules.{and-IsBitwise, bitwise_applied}
use metajit_cpp.Base.{>>=-eq-some, false}
use metajit_cpp.Types.{is_int, is_int_or_bool}
use metajit_cpp.Ir.{mod_u_inst}
use metajit_cpp.Word.Ops.{sub64, mod64}
use metajit_cpp.Interpreter as I
use metajit_cpp.Folding.{as_konst}
use metajit_cpp.Folding.Cases.{when_some_cases, if_cases}
use metajit_cpp.Folding.Checked.{both_true, and_true, same_type_refl}
use metajit_cpp.Folding.Numbers.{unpoisoned}
use metajit_cpp.Folding.Arith.{is_power_of_two, fold_mod_u}
use metajit_cpp.Folding.ConstProp.{view_number}
use metajit_cpp.Folding.Good.{then_folds, kept}
use metajit_cpp.Folding.Sound.{fold_and-Folds-to}
use metajit_cpp.Folding.Rules.{and-IsBitwise, bitwise_applied}
use metajit_cpp.Folding.Modular.{Fits-lt, and-power_of_two}
use metajit_cpp.Base.{◌-◌, ◌%◌, ◌^◌, ◌<◌, ◌≤◌, arith, false, >>=-eq-some}

-- What the test for a power of two says.
pub power_facts :
    (v : ℕ)
    → v < 2 ^ 64
    → is_power_of_two v ≡ true
    → ((v == 0) ≡ false) × (sub64 v 1 ≡ v - 1) × (1 ≤ v) × (bit_and v (v - 1) ≡ 0)
unfolding is_power_of_two sub64
power_facts v f h =
    let (p, q) = both_true h in
    let n : (v == 0) ≡ false = ground arith in
    let m : 1 ≤ v = ground arith in
    let e : sub64 v 1 ≡ v - 1 = omega arith in (n, e, m, ap (bit_and v) (sym e) ∙ ==→eq _ _ q)

int_or_bool : (t : IrType) → is_int t ≡ true → is_int_or_bool t ≡ true
unfolding is_int_or_bool
int_or_bool t h = rw h refl

module _ (floats : IE.FloatUnit) (leaves : ℕ → IrType → Option ℕ)
    (leaves-Fit : (n : ℕ) (t : IrType) (v : ℕ) → leaves n t ≡ some v → Fits t v) (a b : Node)
    (c : checked (binary mod_u_inst a b) ≡ true) (v : ℕ)
    (at_b : number floats leaves b ≡ some v) where
  mod_number :
      (w : ℕ)
      → (v == 0) ≡ false
      → number floats leaves (binary mod_u_inst a b) ≡ some w
      → (x : ℕ) × (number floats leaves a ≡ some x)
        × Fits (node_type a) x
        × (w ≡ cut (node_type a) (x % v))
  unfolding number IE.eval_binary I.mod_u I.propagating_binop I.eval_mod_u I.constant unpoisoned
      mod64
  mod_number w h e =
      let j = checked-binary mod_u_inst a b c in
      let (x, ex, e1) = >>=-eq-some (number floats leaves a) _ e in
      let f = number-Fits floats leaves leaves-Fit a x j.left ex in
      let g = number-Fits floats leaves leaves-Fit b v j.right at_b in
      let e2 = rw at_b at e1 in
      (
        x,
        ex,
        f,
        some_eq (sym (rw (masked_self (node_type a) x f, masked_self (node_type b) v g, h) at e2)),
      )

  mod_rule :
      is_power_of_two v ≡ true
      → Folded floats leaves
          (binary mod_u_inst a b)
          (binary and_inst a (build_const (node_type a) (sub64 v 1)))
  unfolding node_type binary_type binary_checks
  mod_rule h =
      let j = checked-binary mod_u_inst a b c in
      let (p, q) = both_true j.of_types in
      let t = same_type→eq (node_type a) (node_type b) p in
      let y = build_const (node_type a) (sub64 v 1) in
      let g : Fits (node_type a) v = rw t (number-Fits floats leaves leaves-Fit b v j.right at_b) in
      let (n, s, m, z) = power_facts v (Fits-lt (node_type a) v g) h in
      let k : Fits (node_type a) (sub64 v 1) = rw s (omega arith) in
      record {
        typed = refl;
        checks = binary-checked and_inst a y record {
          of_types =
              rw (build_const-type (node_type a) (sub64 v 1))
                (and_true (same_type_refl (node_type a)) (int_or_bool (node_type a) q));
          left = j.left;
          right = build_const-checked (node_type a) (sub64 v 1);
        };
        same_number = λ w e.
            let (x, ex, f, r) = mod_number w n e in
            bitwise_applied floats leaves leaves-Fit and_inst bit_and (and-IsBitwise floats) a y x
              (sub64 v 1) (sym (build_const-type (node_type a) (sub64 v 1))) ex
              (number-build_const floats leaves (node_type a) (sub64 v 1)
                ∙ ap some (masked_self (node_type a) (sub64 v 1) k))
              f k
            ∙ ap some (
                sym (
                  r
                  ∙ ap (cut (node_type a)) (sym (ap (bit_and x) s ∙ and-power_of_two v x m z))
                  ∙ masked_self (node_type a) (bit_and x (sub64 v 1)) (and-lt_left _ x _ f)));
      }

module _ (floats : IE.FloatUnit) (leaves : ℕ → IrType → Option ℕ)
    (leaves-Fit : (n : ℕ) (t : IrType) (v : ℕ) → leaves n t ≡ some v → Fits t v)
    (same : Node → Node → Bool) (same-eq : (x y : Node) → same x y ≡ true → x ≡ y) where
  pub fold_mod_u-Folds-to :
      (a b : Node)
      → checked (binary mod_u_inst a b) ≡ true
      → Folds-to floats leaves (binary mod_u_inst a b) (fold_mod_u same a b)
  unfolding fold_mod_u
  fold_mod_u-Folds-to a b c =
      let N = binary mod_u_inst a b in
      let P : Option Node → Type 0 = Folds-to floats leaves N in
      when_some_cases P (as_konst b) _ _
        (λ v p.
          let nb = view_number floats leaves b v (checked-binary mod_u_inst a b c).right p in
          if_cases P (is_power_of_two v) _ _
            (λ q.
              let h = mod_rule floats leaves leaves-Fit a b c v nb q in
              then_folds floats leaves N _ _ h
                (fold_and-Folds-to floats leaves leaves-Fit same same-eq a _ h.checks))
            (λ _. kept floats leaves N c))
        (kept floats leaves N c)
