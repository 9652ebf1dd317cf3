-- ===== src/Folding/AndStep.antt =====
-- `fold_and` of `Builder` (jitir.tmpl.hpp), by the folds that it calls.
use mathlib.Core.Path.{subst}
use metajit_cpp.Types.{IrType, type_mask}
use metajit_cpp.Ir.{BinOp, and_inst, or_inst, xor_inst}
use metajit_cpp.Ir.Checks.{binary_type}
use metajit_cpp.Interpreter.Eval as IE
use metajit_cpp.Word.Laws.{and_comm}
use metajit_cpp.Folding.{Node, konst, binary, node_type, checked, build_const}
use metajit_cpp.Folding.Checked.{checked-binary}
use metajit_cpp.Folding.Numbers.{number, Folded, Folded-refl, Folded-trans, Folds-to}
use metajit_cpp.Folding.Operands.{Fits}
use metajit_cpp.Folding.Totals.{and-IsTotal}
use metajit_cpp.Base.{
  ℕ, Bool, true, Option, none, some, ◌≡◌, refl, sym, ap, ◌∙◌, some_eq, bit_and, ◌==◌, ==→eq,
}
use metajit_cpp.Folding.Rules.{and-IsBitwise, bitwise_types}
use metajit_cpp.Base.{suc, ◌+◌, ◌*◌, ◌<◌, arith}
use metajit_cpp.Folding.{is_konst, as_konst}
use metajit_cpp.Folding.Cases.{when_some_cases, if_cases}
use metajit_cpp.Folding.Consts.{Folds}
use metajit_cpp.Folding.Bitwise.{size, is_not, masked_or, and_nots, and_swapped, fold_and_step}
use metajit_cpp.Folding.ConstProp.{as_konst-eq, view_number}
use metajit_cpp.Folding.Propagation.{const_prop-Folds}
use metajit_cpp.Folding.Good.{Good, Good-SelectsConsts, then_folds, done}
use metajit_cpp.Folding.Rules.{commuted}
use metajit_cpp.Folding.AndRules.{
  and-same_rule, and-mask_rule, and-zero_rule, and-not_rule, and-or_rule,
}

pub left-size : (a : Node) (o : BinOp) (x y : Node) → a ≡ binary o x y → size x < size a
unfolding size
left-size a o x y e = rw e (omega arith)

-- What the views of `fold_and` say.
pub is_not-eq :
    (a x : Node)
    → is_not a ≡ some x
    → (t : IrType) × (a ≡ binary xor_inst x (konst t (type_mask (node_type x))))
unfolding is_not
is_not-eq (binary xor_inst a (konst t v)) x h =
    if_cases
      (λ (o : Option Node).
        o ≡ some x
        → (u : IrType) × (binary xor_inst a (konst t v)
            ≡ binary xor_inst x (konst u (type_mask (node_type x)))))
      (v == type_mask (node_type a)) (some a) none
      (λ p e. (
        t,
        ap (λ w. binary xor_inst a (konst t w)) (==→eq _ _ p)
            ∙ ap (λ w. binary xor_inst w (konst t (type_mask (node_type w)))) (some_eq e),
      ))
      (λ p e. cc) h
is_not-eq _ x h = cc

pub masked_or-eq :
    (n : ℕ) (a x : Node)
    → masked_or n a ≡ some x
    → (y : Node) × (t : IrType) × (m : ℕ) × (a ≡ binary or_inst x (binary and_inst y (konst t m)))
      × (bit_and m n ≡ 0)
unfolding masked_or
masked_or-eq n (binary or_inst w (binary and_inst y (konst t m))) x h =
    if_cases
      (λ (o : Option Node).
        o ≡ some x
        → (y' : Node) × (t' : IrType) × (m' : ℕ) × (binary or_inst w (binary and_inst y (konst t m))
            ≡ binary or_inst x (binary and_inst y' (konst t' m')))
          × (bit_and m' n ≡ 0))
      (bit_and m n == 0) (some w) none
      (λ p e. (
        y,
        t,
        m,
        ap (λ i. binary or_inst i (binary and_inst y (konst t m))) (some_eq e),
        ==→eq _ _ p,
      ))
      (λ p e. cc) h
masked_or-eq n _ x h = cc

module _ (floats : IE.FloatUnit) (leaves : ℕ → IrType → Option ℕ)
    (leaves-Fit : (n : ℕ) (t : IrType) (v : ℕ) → leaves n t ≡ some v → Fits t v)
    (same : Node → Node → Bool) (same-eq : (x y : Node) → same x y ≡ true → x ≡ y) where
  and_nots-Folded :
      (a b : Node)
      → checked (binary and_inst a b) ≡ true
      → Folded floats leaves (binary and_inst a b) (and_nots same a b)
  unfolding and_nots
  and_nots-Folded a b c =
      let P : Node → Type 0 = Folded floats leaves (binary and_inst a b) in
      let k = Folded-refl floats leaves (binary and_inst a b) c in
      when_some_cases P (is_not a) _ _
        (λ x p.
          if_cases P (same x b) _ _
            (λ q.
              let (t, e) = is_not-eq a x p in
              and-not_rule floats leaves leaves-Fit a b c t (
                subst (λ w. a ≡ binary xor_inst w (konst t (type_mask (node_type w))))
                  (same-eq x b q) e))
            (λ q. k))
        (when_some_cases P (is_not b) _ _
          (λ x p.
            if_cases P (same x a) _ _
              (λ q.
                let (t, e) = is_not-eq b x p in
                let h =
                  commuted floats leaves leaves-Fit and_inst bit_and (and-IsTotal floats) and_comm a
                    b c in
                Folded-trans floats leaves _ _ _ h (
                  subst (λ w. Folded floats leaves (binary and_inst b a) (build_const w 0))
                    (sym (
                      bitwise_types floats leaves leaves-Fit and_inst bit_and (and-IsBitwise floats)
                        a b c))
                    (and-not_rule floats leaves leaves-Fit b a h.checks t (
                      subst (λ w. b ≡ binary xor_inst w (konst t (type_mask (node_type w))))
                        (same-eq x a q) e))))
              (λ q. k))
          k)

  module _ (folds : Folds) (n : ℕ) (good : Good floats leaves folds n) where
    and_swapped-Folds :
        (a b : Node)
        → 2 * (size a + size b) < suc n
        → checked (binary and_inst a b) ≡ true
        → Folds-to floats leaves (binary and_inst a b) (and_swapped same folds a b)
    unfolding and_swapped
    and_swapped-Folds a b d c =
        let N = binary and_inst a b in
        let P : Option Node → Type 0 = Folds-to floats leaves N in
        let last : P (some (and_nots same a b)) = done floats leaves N _ (and_nots-Folded a b c) in
        if_cases P (same a b) _ _
          (λ e.
            done floats leaves N a (and-same_rule floats leaves leaves-Fit a b c (same-eq a b e)))
          (λ _.
            const_prop-Folds floats leaves leaves-Fit same same-eq folds and_inst bit_and
              (and-IsTotal floats) a b c (node_type a) (unfold binary_type in refl)
              (λ z q. Good-SelectsConsts floats leaves folds n (size a + size b) z good d q) _
              (when_some_cases P (as_konst b) _ _
                (λ v p.
                  let eb = as_konst-eq b v p in
                  let nb : number floats leaves b ≡ some v =
                    view_number floats leaves b v (checked-binary and_inst a b c).right p in
                  if_cases P (v == type_mask (node_type a)) _ _
                    (λ q.
                      done floats leaves N a
                        (and-mask_rule floats leaves leaves-Fit a b c (nb ∙ ap some (==→eq _ _ q))))
                    (λ _.
                      if_cases P (v == 0) _ _
                        (λ q. done floats leaves N b (
                          and-zero_rule floats leaves leaves-Fit a b c
                            (nb ∙ ap some (==→eq _ _ q))))
                        (λ _.
                          when_some_cases P (masked_or v a) _ _
                            (λ x q.
                              let (y, t, m, e, z) = masked_or-eq v a x q in
                              let h =
                                and-or_rule floats leaves leaves-Fit a b c x y t (node_type b) m v e
                                  eb z in
                              then_folds floats leaves N (binary and_inst x b) _ h (
                                good.ands x b (let s = left-size a or_inst x _ e in omega arith)
                                  h.checks))
                            last)))
                last))

    pub fold_and_step-Folds :
        (a b : Node)
        → 2 * (size a + size b) < suc n
        → checked (binary and_inst a b) ≡ true
        → Folds-to floats leaves (binary and_inst a b) (fold_and_step same folds a b)
    unfolding fold_and_step
    fold_and_step-Folds a b d c =
        let h =
          commuted floats leaves leaves-Fit and_inst bit_and (and-IsTotal floats) and_comm a b c in
        if_cases (Folds-to floats leaves (binary and_inst a b)) (is_konst a) _ _
          (λ _.
            then_folds floats leaves (binary and_inst a b) (binary and_inst b a) _ h
              (and_swapped-Folds b a (omega arith) h.checks))
          (λ _. and_swapped-Folds a b d c)
