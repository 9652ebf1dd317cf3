-- ===== src/Folding/Products.antt =====
-- `fold_sub`, `fold_mul` and `fold_mod_u` of `Builder` (jitir.tmpl.hpp) against the interpreter.
use mathlib.Core.Path.{subst}
use metajit_cpp.Types.{IrType}
use metajit_cpp.Ir.Checks.{binary_checks, binary_type}
use metajit_cpp.Interpreter.Eval as IE
use metajit_cpp.Soundness.Operators.{masked_self}
use metajit_cpp.Folding.{Node, binary, node_type, checked, build_const}
use metajit_cpp.Folding.Bits.{zero-Fits}
use metajit_cpp.Folding.Checked.{checked-binary, binary-checked}
use metajit_cpp.Folding.Numbers.{number, Folded, Folds-to}
use metajit_cpp.Folding.Operands.{Fits, cut, cut-Fits, applied}
use metajit_cpp.Folding.ConstProp.{build_const-checked, build_const-type, number-build_const}
use metajit_cpp.Base.{ℕ, Bool, true, Option, some, ◌≡◌, refl, sym, ap, ◌∙◌, some_eq, ◌==◌, ==→eq}
use metajit_cpp.Ir.{add_inst, sub_inst, mul_inst}
use metajit_cpp.Word.Ops.{add64, sub64, mul64}
use metajit_cpp.Folding.{is_konst, as_konst}
use metajit_cpp.Folding.Cases.{when_some_cases, if_cases}
use metajit_cpp.Folding.Arith.{all_folds, fold_sub, mul_rest, mul_swapped, fold_mul}
use metajit_cpp.Folding.ConstProp.{view_number}
use metajit_cpp.Folding.Propagation.{const_prop-Folds}
use metajit_cpp.Folding.Totals.{add-IsTotal, sub-IsTotal, mul-IsTotal}
use metajit_cpp.Folding.Good.{then_folds, done, kept}
use metajit_cpp.Folding.Sums.{all-SelectsConsts, own_rule, fold_add-Folds-to}
use metajit_cpp.Folding.Rules.{commuted}
use metajit_cpp.Folding.Modular.{sub_add, Fits-lt, sub64-zero, mul64-zero, mul64-one, mul64_comm}

module _ (floats : IE.FloatUnit) (leaves : ℕ → IrType → Option ℕ)
    (leaves-Fit : (n : ℕ) (t : IrType) (v : ℕ) → leaves n t ≡ some v → Fits t v)
    (same : Node → Node → Bool) (same-eq : (x y : Node) → same x y ≡ true → x ≡ y) where
  module _ (a b : Node) (c : checked (binary sub_inst a b) ≡ true) (v : ℕ)
      (at_b : number floats leaves b ≡ some v) where
    sub-zero_rule : v ≡ 0 → Folded floats leaves (binary sub_inst a b) a
    unfolding binary_type
    sub-zero_rule e =
        own_rule floats leaves leaves-Fit same same-eq sub_inst sub64 (sub-IsTotal floats)
          (λ t. refl) a b a c refl (checked-binary sub_inst a b c).left
          (λ l r p q f g.
            let z : r ≡ 0 = some_eq (sym q ∙ at_b) ∙ e in
            p
            ∙ ap some (
                sym (
                  ap (λ i. cut (node_type a) (sub64 l i)) z
                  ∙ ap (cut (node_type a)) (sub64-zero l (Fits-lt (node_type a) l f))
                  ∙ masked_self (node_type a) l f)))

    sub-add_rule :
        Folded floats leaves
          (binary sub_inst a b)
          (binary add_inst a (build_const (node_type b) (sub64 0 v)))
    unfolding binary_type node_type binary_checks
    sub-add_rule =
        let y = build_const (node_type b) (sub64 0 v) in
        let j = checked-binary sub_inst a b c in
        let t : node_type a ≡ node_type b =
          (sub-IsTotal floats).same_types (node_type a) (node_type b) j.of_types in
        own_rule floats leaves leaves-Fit same same-eq sub_inst sub64 (sub-IsTotal floats)
          (λ u. refl) a b (binary add_inst a y) c refl
          (binary-checked add_inst a y record {
            of_types =
                subst (λ u. binary_checks add_inst (node_type a) u ≡ true)
                  (sym (build_const-type (node_type b) (sub64 0 v))) j.of_types;
            left = j.left;
            right = build_const-checked (node_type b) (sub64 0 v);
          })
          (λ l r p q f g.
            let z : r ≡ v = some_eq (sym q ∙ at_b) in
            let w = cut (node_type b) (sub64 0 v) in
            applied floats leaves leaves-Fit add_inst add64 (add-IsTotal floats) a y l w
              (t ∙ sym (build_const-type (node_type b) (sub64 0 v))) p
              (number-build_const floats leaves (node_type b) (sub64 0 v)) f
              (rw t (cut-Fits (node_type b) (sub64 0 v)))
            ∙ ap some (
                sym (
                  ap (λ i. cut (node_type a) (sub64 l i)) z
                  ∙ sub_add (node_type a) l v f (rw (sym z) g)
                  ∙ ap (λ u. cut (node_type a) (add64 l (cut u (sub64 0 v)))) t)))

  pub fold_sub-Folds-to :
      (a b : Node)
      → checked (binary sub_inst a b) ≡ true
      → Folds-to floats leaves (binary sub_inst a b) (fold_sub same a b)
  unfolding fold_sub
  fold_sub-Folds-to a b c =
      let N = binary sub_inst a b in
      let P : Option Node → Type 0 = Folds-to floats leaves N in
      when_some_cases P (as_konst b) _ _
        (λ v p.
          let nb = view_number floats leaves b v (checked-binary sub_inst a b c).right p in
          if_cases P (v == 0) _ _
            (λ q. done floats leaves N a (sub-zero_rule a b c v nb (==→eq _ _ q)))
            (λ _.
              let h = sub-add_rule a b c v nb in
              then_folds floats leaves N _ _ h
                (fold_add-Folds-to floats leaves leaves-Fit same same-eq a _ h.checks)))
        (const_prop-Folds floats leaves leaves-Fit same same-eq (all_folds same) sub_inst sub64
          (sub-IsTotal floats) a b c (node_type a) (unfold binary_type in refl)
          (λ z q. all-SelectsConsts floats leaves leaves-Fit same same-eq z) _
          (kept floats leaves N c))

  module _ (a b : Node) (c : checked (binary mul_inst a b) ≡ true) where
    mul-zero_rule : number floats leaves b ≡ some 0 → Folded floats leaves (binary mul_inst a b) b
    unfolding binary_type
    mul-zero_rule e =
        let j = checked-binary mul_inst a b c in
        own_rule floats leaves leaves-Fit same same-eq mul_inst mul64 (mul-IsTotal floats)
          (λ t. refl) a b b c
          (sym ((mul-IsTotal floats).same_types (node_type a) (node_type b) j.of_types)) j.right
          (λ l r p q f g.
            let z : r ≡ 0 = some_eq (sym q ∙ e) in
            e
            ∙ ap some (
                sym (
                  ap (λ i. cut (node_type a) (mul64 l i)) z
                  ∙ ap (cut (node_type a)) (mul64-zero l)
                  ∙ masked_self (node_type a) 0 (zero-Fits (node_type a)))))

    mul-one_rule : number floats leaves b ≡ some 1 → Folded floats leaves (binary mul_inst a b) a
    unfolding binary_type
    mul-one_rule e =
        own_rule floats leaves leaves-Fit same same-eq mul_inst mul64 (mul-IsTotal floats)
          (λ t. refl) a b a c refl (checked-binary mul_inst a b c).left
          (λ l r p q f g.
            let z : r ≡ 1 = some_eq (sym q ∙ e) in
            p
            ∙ ap some (
                sym (
                  ap (λ i. cut (node_type a) (mul64 l i)) z
                  ∙ ap (cut (node_type a)) (mul64-one l (Fits-lt (node_type a) l f))
                  ∙ masked_self (node_type a) l f)))

    mul_rest-Folds : Folds-to floats leaves (binary mul_inst a b) (mul_rest same a b)
    unfolding mul_rest
    mul_rest-Folds =
        const_prop-Folds floats leaves leaves-Fit same same-eq (all_folds same) mul_inst mul64
          (mul-IsTotal floats) a b c (node_type a) (unfold binary_type in refl)
          (λ z q. all-SelectsConsts floats leaves leaves-Fit same same-eq z) _
          (kept floats leaves (binary mul_inst a b) c)

    mul_swapped-Folds : Folds-to floats leaves (binary mul_inst a b) (mul_swapped same a b)
    unfolding mul_swapped
    mul_swapped-Folds =
        let N = binary mul_inst a b in
        let P : Option Node → Type 0 = Folds-to floats leaves N in
        when_some_cases P (as_konst b) _ _
          (λ v p.
            let nb = view_number floats leaves b v (checked-binary mul_inst a b c).right p in
            if_cases P (v == 0) _ _
              (λ q. done floats leaves N b (mul-zero_rule (nb ∙ ap some (==→eq _ _ q))))
              (λ _.
                if_cases P (v == 1) _ _
                  (λ q. done floats leaves N a (mul-one_rule (nb ∙ ap some (==→eq _ _ q))))
                  (λ _. mul_rest-Folds)))
          mul_rest-Folds

  pub fold_mul-Folds-to :
      (a b : Node)
      → checked (binary mul_inst a b) ≡ true
      → Folds-to floats leaves (binary mul_inst a b) (fold_mul same a b)
  unfolding fold_mul
  fold_mul-Folds-to a b c =
      let h =
        commuted floats leaves leaves-Fit mul_inst mul64 (mul-IsTotal floats) mul64_comm a b c in
      if_cases (Folds-to floats leaves (binary mul_inst a b)) (is_konst a) _ _
        (λ _.
          then_folds floats leaves (binary mul_inst a b) (binary mul_inst b a) _ h
            (mul_swapped-Folds b a h.checks))
        (λ _. mul_swapped-Folds a b c)
