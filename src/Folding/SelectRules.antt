-- ===== src/Folding/SelectRules.antt =====
-- The single rules of `fold_select` (jitir.tmpl.hpp) against the interpreter.
use mathlib.Core.Path.{subst}
use metajit_cpp.Types.{IrType}
use metajit_cpp.Interpreter.Eval as IE
use metajit_cpp.Folding.{Node, konst, node_type, checked}
use metajit_cpp.Folding.Numbers.{number, Folded}
use metajit_cpp.Folding.Operands.{Fits}
use metajit_cpp.Base.{ℕ, true, Option, some, ◌≡◌, refl, sym, ap, ◌∙◌, some_eq, ◌==◌}
use metajit_cpp.Folding.Rules.{konst_number}
use metajit_cpp.Folding.{select}
use metajit_cpp.Folding.Checked.{checked-select, select-checked}
use metajit_cpp.Base.{if◌then◌else◌, Bool-cases, inl, inr, >>=-eq-some, false}

module _ (floats : IE.FloatUnit) (leaves : ℕ → IrType → Option ℕ)
    (leaves-Fit : (n : ℕ) (t : IrType) (v : ℕ) → leaves n t ≡ some v → Fits t v) (z a b : Node)
    (c : checked (select z a b) ≡ true) where
  -- A rule, by the arm that the condition picks.
  select_rule :
      (y : Node)
      → node_type y ≡ node_type a
      → checked y ≡ true
      → ((w v : ℕ)
          → number floats leaves z ≡ some w
          → (if w == 0 then number floats leaves b else number floats leaves a) ≡ some v
          → number floats leaves y ≡ some v)
      → Folded floats leaves (select z a b) y
  unfolding number node_type
  select_rule y t k h = record {
    typed = t;
    checks = k;
    same_number = λ v e. let (w, p, q) = >>=-eq-some (number floats leaves z) _ e in h w v p q;
  }

  pub true_rule :
      (t : IrType) (k : ℕ)
      → z ≡ konst t k
      → (k == 0) ≡ false
      → Folded floats leaves (select z a b) a
  true_rule t k e h =
      let j = checked-select z a b c in
      select_rule a refl j.left (λ w v p q.
        let f : w ≡ k = some_eq (
          sym p
          ∙ ap (number floats leaves) e
          ∙ konst_number floats leaves leaves-Fit t k (subst (λ i. checked i ≡ true) e j.cond)) in
        rw (f, h) at q)

  pub false_rule :
      (t : IrType) (k : ℕ) → z ≡ konst t k → (k == 0) ≡ true → Folded floats leaves (select z a b) b
  false_rule t k e h =
      let j = checked-select z a b c in
      select_rule b (sym j.of_arms) j.right (λ w v p q.
        let f : w ≡ k = some_eq (
          sym p
          ∙ ap (number floats leaves) e
          ∙ konst_number floats leaves leaves-Fit t k (subst (λ i. checked i ≡ true) e j.cond)) in
        rw (f, h) at q)

  pub same_arms_rule : a ≡ b → Folded floats leaves (select z a b) a
  same_arms_rule e = select_rule a refl (checked-select z a b c).left (λ w v p q.
      elim (Bool-cases (w == 0)) [
        | inl h ↦ ap (number floats leaves) e ∙ (rw h at q)
        | inr h ↦ rw h at q
      ])

  -- A select in an arm, by the same condition.
  pub nested_true_rule :
      (x y : Node) → a ≡ select z x y → Folded floats leaves (select z a b) (select z x b)
  unfolding number node_type
  nested_true_rule x y e =
      let j = checked-select z a b c in
      let k = checked-select z x y (subst (λ i. checked i ≡ true) e j.left) in
      select_rule (select z x b) (sym (ap node_type e))
        (select-checked z x b record {
          of_cond = j.of_cond;
          of_arms = sym (ap node_type e) ∙ j.of_arms;
          cond = j.cond;
          left = k.left;
          right = j.right;
        })
        (λ w v p q. elim (Bool-cases (w == 0)) [
          | inl h ↦ rw (p, h) (rw h at q)
          | inr h ↦ rw (p, h) (rw (p, h) at (ap (number floats leaves) (sym e) ∙ (rw h at q)))
        ])

  pub nested_false_rule :
      (x y : Node) → b ≡ select z x y → Folded floats leaves (select z a b) (select z a y)
  unfolding number node_type
  nested_false_rule x y e =
      let j = checked-select z a b c in
      let k = checked-select z x y (subst (λ i. checked i ≡ true) e j.right) in
      select_rule (select z a y) refl
        (select-checked z a y record {
          of_cond = j.of_cond;
          of_arms = j.of_arms ∙ ap node_type e ∙ k.of_arms;
          cond = j.cond;
          left = j.left;
          right = k.right;
        })
        (λ w v p q. elim (Bool-cases (w == 0)) [
          | inl h ↦ rw (p, h) (rw (p, h) at (ap (number floats leaves) (sym e) ∙ (rw h at q)))
          | inr h ↦ rw (p, h) (rw h at q)
        ])
