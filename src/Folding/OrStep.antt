-- ===== src/Folding/OrStep.antt =====
-- `fold_or` and `fold_xor` of `Builder` (jitir.tmpl.hpp), by the folds that they call.
use mathlib.Core.Path.{subst}
use metajit_cpp.Types.{IrType, type_mask}
use metajit_cpp.Ir.{and_inst, or_inst, xor_inst}
use metajit_cpp.Ir.Checks.{binary_type}
use metajit_cpp.Interpreter.Eval as IE
use metajit_cpp.Word.Laws.{or_comm, xor_comm}
use metajit_cpp.Folding.{Node, konst, binary, node_type, checked, build_const}
use metajit_cpp.Folding.Checked.{checked-binary}
use metajit_cpp.Folding.Numbers.{Folds-to}
use metajit_cpp.Folding.Operands.{Fits}
use metajit_cpp.Folding.Totals.{or-IsTotal, xor-IsTotal}
use metajit_cpp.Base.{
  ℕ, Bool, true, Option, some, ◌≡◌, refl, sym, ap, ◌∙◌, some_eq, bit_or, bit_xor, ◌==◌, ==→eq,
}
use metajit_cpp.Folding.{is_konst, as_konst}
use metajit_cpp.Folding.Cases.{when_some_cases, if_cases}
use metajit_cpp.Folding.Consts.{Folds}
use metajit_cpp.Folding.Bitwise.{
  size, is_not, as_masked, or_masked, or_swapped, fold_or_step, xor_swapped, fold_xor_step,
}
use metajit_cpp.Folding.ConstProp.{view_number}
use metajit_cpp.Folding.Propagation.{const_prop-Folds}
use metajit_cpp.Folding.Good.{Good, Good-SelectsConsts, then_folds, done, kept}
use metajit_cpp.Folding.Rules.{commuted}
use metajit_cpp.Folding.AndStep.{is_not-eq, left-size}
use metajit_cpp.Folding.OrRules.{
  or-same_rule, or-zero_rule, or-mask_rule, or-and_rule, xor-zero_rule, xor-xor_rule,
}
use metajit_cpp.Base.{suc, ◌+◌, ◌*◌, ◌<◌, arith}

as_masked-eq :
    (a x : Node) (m : ℕ)
    → as_masked a ≡ some (x, m)
    → (t : IrType) × (a ≡ binary and_inst x (konst t m))
unfolding as_masked
as_masked-eq (binary and_inst y (konst t k)) x m h =
    let e : (y, k) ≡ (x, m) = some_eq h in
    (t, ap (λ (p : Node × ℕ). binary and_inst p.0 (konst t p.1)) e)
as_masked-eq _ x m h = cc

inverted_type :
    (a x : Node) (t : IrType)
    → a ≡ binary xor_inst x (konst t (type_mask (node_type x)))
    → node_type a ≡ node_type x
unfolding node_type binary_type
inverted_type a x t e = ap node_type e

module _ (floats : IE.FloatUnit) (leaves : ℕ → IrType → Option ℕ)
    (leaves-Fit : (n : ℕ) (t : IrType) (v : ℕ) → leaves n t ≡ some v → Fits t v)
    (same : Node → Node → Bool) (same-eq : (x y : Node) → same x y ≡ true → x ≡ y) (folds : Folds)
    (n : ℕ) (good : Good floats leaves folds n) where
  or_masked-Folds :
      (a b : Node)
      → 2 * (size a + size b) < suc n
      → checked (binary or_inst a b) ≡ true
      → Folds-to floats leaves (binary or_inst a b) (or_masked same folds a b)
  unfolding or_masked build_const size
  or_masked-Folds a b d c =
      let N = binary or_inst a b in
      let P : Option Node → Type 0 = Folds-to floats leaves N in
      let last : P (some N) = kept floats leaves N c in
      when_some_cases P (as_masked a) _ _
        (λ p e.
          when_some_cases P (as_masked b) _ _
            (λ q f.
              if_cases P (same p.0 q.0) _ _
                (λ s.
                  let (t, ea) = as_masked-eq a p.0 p.1 e in
                  let (u, eb) = as_masked-eq b q.0 q.1 f in
                  let h = or-and_rule floats leaves leaves-Fit a b c p.0 t u p.1 q.1 ea (
                    subst (λ w. b ≡ binary and_inst w (konst u q.1)) (sym (same-eq p.0 q.0 s))
                      eb) in
                  then_folds floats leaves N _ _ h (
                    good.ands p.0 (build_const (node_type a) (bit_or p.1 q.1))
                      (let l = left-size a and_inst p.0 (konst t p.1) ea in omega arith) h.checks))
                (λ s. last))
            last)
        last

  or_swapped-Folds :
      (a b : Node)
      → 2 * (size a + size b) < suc n
      → checked (binary or_inst a b) ≡ true
      → Folds-to floats leaves (binary or_inst a b) (or_swapped same folds a b)
  unfolding or_swapped
  or_swapped-Folds a b d c =
      let N = binary or_inst a b in
      let P : Option Node → Type 0 = Folds-to floats leaves N in
      if_cases P (same a b) _ _
        (λ e. done floats leaves N a (or-same_rule floats leaves leaves-Fit a b c (same-eq a b e)))
        (λ _.
          const_prop-Folds floats leaves leaves-Fit same same-eq folds or_inst bit_or
            (or-IsTotal floats) a b c (node_type a) (unfold binary_type in refl)
            (λ z q. Good-SelectsConsts floats leaves folds n (size a + size b) z good d q) _
            (when_some_cases P (as_konst b) _ _
              (λ v p.
                let nb = view_number floats leaves b v (checked-binary or_inst a b c).right p in
                if_cases P (v == 0) _ _
                  (λ q.
                    done floats leaves N a
                      (or-zero_rule floats leaves leaves-Fit a b c (nb ∙ ap some (==→eq _ _ q))))
                  (λ _.
                    if_cases P (v == type_mask (node_type a)) _ _
                      (λ q.
                        done floats leaves N b (
                          or-mask_rule floats leaves leaves-Fit a b c (nb ∙ ap some (==→eq _ _ q))))
                      (λ _. kept floats leaves N c)))
              (or_masked-Folds a b d c)))

  pub fold_or_step-Folds :
      (a b : Node)
      → 2 * (size a + size b) < suc n
      → checked (binary or_inst a b) ≡ true
      → Folds-to floats leaves (binary or_inst a b) (fold_or_step same folds a b)
  unfolding fold_or_step
  fold_or_step-Folds a b d c =
      let h = commuted floats leaves leaves-Fit or_inst bit_or (or-IsTotal floats) or_comm a b c in
      if_cases (Folds-to floats leaves (binary or_inst a b)) (is_konst a) _ _
        (λ _.
          then_folds floats leaves (binary or_inst a b) (binary or_inst b a) _ h
            (or_swapped-Folds b a (omega arith) h.checks))
        (λ _. or_swapped-Folds a b d c)

  xor_swapped-Folds :
      (a b : Node)
      → 2 * (size a + size b) < suc n
      → checked (binary xor_inst a b) ≡ true
      → Folds-to floats leaves (binary xor_inst a b) (xor_swapped same folds a b)
  unfolding xor_swapped
  xor_swapped-Folds a b d c =
      let N = binary xor_inst a b in
      let P : Option Node → Type 0 = Folds-to floats leaves N in
      let last : P (some N) = kept floats leaves N c in
      const_prop-Folds floats leaves leaves-Fit same same-eq folds xor_inst bit_xor
        (xor-IsTotal floats) a b c (node_type a) (unfold binary_type in refl)
        (λ z q. Good-SelectsConsts floats leaves folds n (size a + size b) z good d q) _
        (when_some_cases P (as_konst b) _ _
          (λ v p.
            let nb = view_number floats leaves b v (checked-binary xor_inst a b c).right p in
            if_cases P (v == 0) _ _
              (λ q.
                done floats leaves N a
                  (xor-zero_rule floats leaves leaves-Fit a b c (nb ∙ ap some (==→eq _ _ q))))
              (λ _.
                if_cases P (v == type_mask (node_type a)) _ _
                  (λ q.
                    when_some_cases P (is_not a) _ _
                      (λ x f.
                        let (t, e) = is_not-eq a x f in
                        done floats leaves N x (
                          xor-xor_rule floats leaves leaves-Fit a b c x t (type_mask (node_type x))
                            e (nb ∙ ap some (==→eq _ _ q ∙ ap type_mask (inverted_type a x t e)))))
                      last)
                  (λ _. last)))
          last)

  pub fold_xor_step-Folds :
      (a b : Node)
      → 2 * (size a + size b) < suc n
      → checked (binary xor_inst a b) ≡ true
      → Folds-to floats leaves (binary xor_inst a b) (fold_xor_step same folds a b)
  unfolding fold_xor_step
  fold_xor_step-Folds a b d c =
      let h =
        commuted floats leaves leaves-Fit xor_inst bit_xor (xor-IsTotal floats) xor_comm a b c in
      if_cases (Folds-to floats leaves (binary xor_inst a b)) (is_konst a) _ _
        (λ _.
          then_folds floats leaves (binary xor_inst a b) (binary xor_inst b a) _ h
            (xor_swapped-Folds b a (omega arith) h.checks))
        (λ _. xor_swapped-Folds a b d c)
