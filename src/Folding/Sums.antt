-- ===== src/Folding/Sums.antt =====
-- `fold_add`, `fold_sub` and `fold_mul` of `Builder` (jitir.tmpl.hpp) against the interpreter.
use mathlib.Core.Path.{subst}
use metajit_cpp.Types.{IrType, type_mask}
use metajit_cpp.Ir.{BinOp}
use metajit_cpp.Ir.Checks.{binary_checks, binary_type}
use metajit_cpp.Interpreter.Eval as IE
use metajit_cpp.Soundness.Operators.{masked_self}
use metajit_cpp.Folding.{Node, konst, binary, node_type, checked, build_const}
use metajit_cpp.Folding.Checked.{checked-binary, binary-checked}
use metajit_cpp.Folding.Numbers.{number, Folded, Folds-to}
use metajit_cpp.Folding.Operands.{Fits, cut, cut-Fits, IsTotal, operands, applied}
use metajit_cpp.Folding.ConstProp.{
  cut-cut, build_const-checked, build_const-type, number-build_const,
}
use metajit_cpp.Base.{
  ℕ, Bool, true, Option, some, ◌≡◌, refl, sym, ap, ap₂, ◌∙◌, some_eq, bit_and, ◌==◌, ==→eq,
}
use metajit_cpp.Folding.Rules.{konst_number}
use metajit_cpp.Base.{inr}
use metajit_cpp.Ir.{add_inst}
use metajit_cpp.Word.Ops.{add64}
use metajit_cpp.Folding.{is_konst, as_konst}
use metajit_cpp.Folding.Cases.{when_some_cases, if_cases}
use metajit_cpp.Folding.Bitwise.{size}
use metajit_cpp.Folding.Arith.{
  all_folds, as_add_const, add_rest, add_swapped, fold_add_to, fold_add,
}
use metajit_cpp.Folding.ConstProp.{view_number, SelectsConsts}
use metajit_cpp.Folding.Propagation.{const_prop-Folds}
use metajit_cpp.Folding.Totals.{add-IsTotal}
use metajit_cpp.Folding.Good.{then_folds, done, kept}
use metajit_cpp.Folding.AndStep.{left-size}
use metajit_cpp.Folding.Sound.{fold_select-Selects-to}
use metajit_cpp.Folding.Rules.{total_rule, commuted}
use metajit_cpp.Folding.Modular.{add_assoc, Fits-lt, add64-zero, add64_comm}
use metajit_cpp.Base.{zero, suc, ◌+◌, ◌<◌, inr, arith}

as_add_const-eq :
    (a x : Node) (k : ℕ)
    → as_add_const a ≡ some (x, k)
    → (t : IrType) × (a ≡ binary add_inst x (konst t k))
unfolding as_add_const
as_add_const-eq (binary add_inst y (konst t m)) x k h =
    let e : (y, m) ≡ (x, k) = some_eq h in
    (t, ap (λ (p : Node × ℕ). binary add_inst p.0 (konst t p.1)) e)
as_add_const-eq _ x k h = cc

module _ (floats : IE.FloatUnit) (leaves : ℕ → IrType → Option ℕ)
    (leaves-Fit : (n : ℕ) (t : IrType) (v : ℕ) → leaves n t ≡ some v → Fits t v)
    (same : Node → Node → Bool) (same-eq : (x y : Node) → same x y ≡ true → x ≡ y) where
  pub all-SelectsConsts : (z : Node) → SelectsConsts floats leaves (all_folds same) z
  unfolding all_folds is_konst
  all-SelectsConsts z t x y c =
      let (r, e, h) =
        fold_select-Selects-to floats leaves leaves-Fit same same-eq z (konst t x) (konst t y) c in
      (r, e, h.folded (inr (refl, refl)))

  add_types : (a b : Node) → checked (binary add_inst a b) ≡ true → node_type a ≡ node_type b
  add_types a b c =
      (add-IsTotal floats).same_types (node_type a) (node_type b)
        (checked-binary add_inst a b c).of_types

  -- A rule for an operator whose result has the type of its operands.
  pub own_rule :
      (o : BinOp) (g : ℕ → ℕ → ℕ)
      → IsTotal floats o g
      → ((t : IrType) → binary_type o t ≡ t)
      → (a b y : Node) → checked (binary o a b) ≡ true
      → node_type y ≡ node_type a
      → checked y ≡ true
      → ((l r : ℕ)
          → number floats leaves a ≡ some l
          → number floats leaves b ≡ some r
          → Fits (node_type a) l
          → Fits (node_type a) r
          → number floats leaves y ≡ some (cut (node_type a) (g l r)))
      → Folded floats leaves (binary o a b) y
  own_rule o g total own a b y c t k h =
      total_rule floats leaves leaves-Fit o g total a b y c (t ∙ sym (own (node_type a))) k
        (λ l r p q f i. h l r p q f i ∙ ap (λ u. some (cut u (g l r))) (sym (own (node_type a))))

  module _ (a b : Node) (v : ℕ) where
    add-zero_rule :
        checked (binary add_inst a b) ≡ true
        → number floats leaves b ≡ some 0
        → Folded floats leaves (binary add_inst a b) a
    unfolding binary_type
    add-zero_rule c e =
        own_rule add_inst add64 (add-IsTotal floats) (λ t. refl) a b a c refl
          (checked-binary add_inst a b c).left
          (λ l r p q f g.
            let z : r ≡ 0 = some_eq (sym q ∙ e) in
            p
            ∙ ap some (
                sym (
                  ap (λ i. cut (node_type a) (add64 l i)) z
                  ∙ ap (cut (node_type a)) (add64-zero l (Fits-lt (node_type a) l f))
                  ∙ masked_self (node_type a) l f)))

    -- `(x + k) + v`
    add-add_rule :
        (x : Node) (t : IrType) (k : ℕ)
        → checked (binary add_inst a b) ≡ true
        → a ≡ binary add_inst x (konst t k)
        → number floats leaves b ≡ some v
        → Folded floats leaves (binary add_inst a b) (
            binary add_inst x
              (build_const (node_type a) (bit_and (add64 k v) (type_mask (node_type a)))))
    unfolding binary_type node_type binary_checks
    add-add_rule x t k c e d =
        let T : node_type a ≡ node_type x = ap node_type e in
        let y = build_const (node_type a) (bit_and (add64 k v) (type_mask (node_type a))) in
        let j = checked-binary add_inst a b c in
        let i = checked-binary add_inst x (konst t k) (subst (λ w. checked w ≡ true) e j.left) in
        let tx : node_type x ≡ t =
          add_types x (konst t k) (subst (λ w. checked w ≡ true) e j.left) in
        own_rule add_inst add64 (add-IsTotal floats) (λ u. refl) a b (binary add_inst x y) c (sym T)
          (binary-checked add_inst x y record {
            of_types =
                subst (λ u. binary_checks add_inst (node_type x) u ≡ true)
                  (sym tx ∙ sym T ∙ sym (build_const-type (node_type a) _)) i.of_types;
            left = i.left;
            right = build_const-checked (node_type a) _;
          })
          (λ l r p q f g.
            let s =
              operands floats leaves leaves-Fit add_inst add64 (add-IsTotal floats) x (konst t k) l
                (subst (λ w. checked w ≡ true) e j.left) (ap (number floats leaves) (sym e) ∙ p) in
            let h : s.right ≡ k =
              some_eq (sym s.at_right ∙ konst_number floats leaves leaves-Fit t k i.right) in
            let z : r ≡ v = some_eq (sym q ∙ d) in
            let w = cut (node_type a) (add64 k v) in
            applied floats leaves leaves-Fit add_inst add64 (add-IsTotal floats) x y s.left w
              (sym T ∙ sym (build_const-type (node_type a) _)) s.at_left
              (number-build_const floats leaves (node_type a) w ∙ ap some (cut-cut (node_type a) _))
              s.left-Fits (rw T (cut-Fits (node_type x) (add64 k v)))
            ∙ ap some (
                sym (
                  ap₂ (λ i j. cut (node_type a) (add64 i j))
                    (s.result ∙ ap₂ (λ i j. cut i (add64 s.left j)) (sym T) h) z
                  ∙ add_assoc (node_type a) s.left k v
                  ∙ ap (λ i. cut i (add64 s.left w)) T)))

  module _ (a b : Node) (c : checked (binary add_inst a b) ≡ true) where
    add_rest-Folds : Folds-to floats leaves (binary add_inst a b) (add_rest same a b)
    unfolding add_rest
    add_rest-Folds =
        const_prop-Folds floats leaves leaves-Fit same same-eq (all_folds same) add_inst add64
          (add-IsTotal floats) a b c (node_type a) (unfold binary_type in refl)
          (λ z q. all-SelectsConsts z) _ (kept floats leaves (binary add_inst a b) c)

    add_swapped-Folds :
        (n : ℕ) (again : Node → Node → Option Node)
        → size a + size b < suc n
        → ((x y : Node)
            → size x + size y < n
            → checked (binary add_inst x y) ≡ true
            → Folds-to floats leaves (binary add_inst x y) (again x y))
        → Folds-to floats leaves (binary add_inst a b) (add_swapped same again a b)
    unfolding add_swapped build_const size
    add_swapped-Folds n again d good =
        let N = binary add_inst a b in
        let P : Option Node → Type 0 = Folds-to floats leaves N in
        when_some_cases P (as_konst b) _ _
          (λ v p.
            let nb = view_number floats leaves b v (checked-binary add_inst a b c).right p in
            if_cases P (v == 0) _ _
              (λ q. done floats leaves N a (add-zero_rule a b v c (nb ∙ ap some (==→eq _ _ q))))
              (λ _.
                when_some_cases P (as_add_const a) _ _
                  (λ p q.
                    let (t, e) = as_add_const-eq a p.0 p.1 q in
                    let h = add-add_rule a b v p.0 t p.1 c e nb in
                    let s = left-size a add_inst p.0 _ e in
                    then_folds floats leaves N _ _ h (good p.0 _ (omega arith) h.checks))
                  add_rest-Folds))
          add_rest-Folds

  fold_add_to-Folds :
      (n : ℕ) (a b : Node)
      → size a + size b < n
      → checked (binary add_inst a b) ≡ true
      → Folds-to floats leaves (binary add_inst a b) (fold_add_to same n a b)
  unfolding fold_add_to
  fold_add_to-Folds zero a b d c = absurd (omega arith)
  fold_add_to-Folds (suc n) a b d c =
      let h =
        commuted floats leaves leaves-Fit add_inst add64 (add-IsTotal floats) add64_comm a b c in
      if_cases (Folds-to floats leaves (binary add_inst a b)) (is_konst a) _ _
        (λ _. then_folds floats leaves (binary add_inst a b) (binary add_inst b a) _ h (
          add_swapped-Folds b a h.checks n (fold_add_to same n) (omega arith)
            (fold_add_to-Folds n)))
        (λ _. add_swapped-Folds a b c n (fold_add_to same n) d (fold_add_to-Folds n))

  pub fold_add-Folds-to :
      (a b : Node)
      → checked (binary add_inst a b) ≡ true
      → Folds-to floats leaves (binary add_inst a b) (fold_add same a b)
  unfolding fold_add
  fold_add-Folds-to a b c = fold_add_to-Folds (1 + (size a + size b)) a b (omega arith) c
