-- ===== src/Folding/Comparisons.antt =====
-- `fold_not`, `fold_eq` and `fold_lt_u` of `Builder` (jitir.tmpl.hpp) against the interpreter.
use mathlib.Core.Path.{subst}
use metajit_cpp.Types.{IrType, bool, type_mask, same_type}
use metajit_cpp.Ir.{xor_inst}
use metajit_cpp.Ir.Checks.{binary_checks, binary_type, same_type→eq}
use metajit_cpp.Interpreter.Eval as IE
use metajit_cpp.Soundness.Operators.{masked_self}
use metajit_cpp.Folding.{Node, binary, node_type, checked, build_const}
use metajit_cpp.Folding.Bits.{type_mask-Fits}
use metajit_cpp.Folding.Checked.{checked-binary, binary-checked}
use metajit_cpp.Folding.Numbers.{number, Folded, Folds-to}
use metajit_cpp.Folding.Operands.{Fits, cut, applied}
use metajit_cpp.Folding.ConstProp.{build_const-checked, build_const-type, number-build_const}
use metajit_cpp.Base.{
  ℕ, Bool, true, Option, some, ◌≡◌, refl, sym, ap, ap₂, ◌∙◌, some_eq, bit_xor, ◌==◌, ==→eq,
}
use metajit_cpp.Folding.Rules.{xor-IsBitwise, pieces, bitwise_applied}
use metajit_cpp.Base.{false}
use metajit_cpp.Types.{is_int_or_bool}
use metajit_cpp.Ir.{eq_inst, lt_u_inst}
use metajit_cpp.Folding.{is_konst, as_konst}
use metajit_cpp.Folding.Cases.{when_some_cases, if_cases}
use metajit_cpp.Folding.Checked.{both_true, and_true, same_type_refl}
use metajit_cpp.Folding.Bitwise.{size, fold_not}
use metajit_cpp.Folding.Arith.{all_folds}
use metajit_cpp.Folding.Compare.{as_xor, eq_const, eq_swapped, fold_eq_to, fold_eq, fold_lt_u}
use metajit_cpp.Folding.ConstProp.{view_number}
use metajit_cpp.Folding.Propagation.{const_prop-Folds}
use metajit_cpp.Folding.Totals.{eq-IsTotal, lt_u-IsTotal, eq_number, lt_number}
use metajit_cpp.Folding.Good.{then_folds, done, kept}
use metajit_cpp.Folding.Sound.{fold_xor-Folds-to}
use metajit_cpp.Folding.Sums.{all-SelectsConsts}
use metajit_cpp.Folding.Rules.{total_rule, commuted, xor-IsBitwise, pieces, bitwise_applied}
use metajit_cpp.Base.{zero, suc, ◌+◌, ◌<◌, arith, false, eq→==}
use metajit_cpp.Folding.Equality.{
  eq_number_comm, eq_number-zero, eq_number-one, eq_number-xor, lt_number-zero, as_xor-eq,
  bool_mask,
}

module _ (floats : IE.FloatUnit) (leaves : ℕ → IrType → Option ℕ)
    (leaves-Fit : (n : ℕ) (t : IrType) (v : ℕ) → leaves n t ≡ some v → Fits t v)
    (same : Node → Node → Bool) (same-eq : (x y : Node) → same x y ≡ true → x ≡ y) where
  -- `a ^ -1`
  abbrev pub inverted : Node → Node
  inverted a = binary xor_inst a (build_const (node_type a) (type_mask (node_type a)))

  pub inverted-checked :
      (a : Node)
      → is_int_or_bool (node_type a) ≡ true
      → checked a ≡ true
      → checked (inverted a) ≡ true
  inverted-checked a t c = binary-checked xor_inst a _ record {
    of_types =
        rw (build_const-type (node_type a) (type_mask (node_type a)))
          (unfold binary_checks in and_true (same_type_refl (node_type a)) t);
    left = c;
    right = build_const-checked (node_type a) (type_mask (node_type a));
  }

  pub fold_not-Folds-to :
      (a : Node)
      → is_int_or_bool (node_type a) ≡ true
      → checked a ≡ true
      → Folds-to floats leaves (inverted a) (fold_not same a)
  unfolding fold_not
  fold_not-Folds-to a t c =
      fold_xor-Folds-to floats leaves leaves-Fit same same-eq a _ (inverted-checked a t c)

  module _ (a b : Node) (c : checked (binary eq_inst a b) ≡ true) where
    eq_rule :
        (y : Node)
        → node_type y ≡ bool
        → checked y ≡ true
        → ((l r : ℕ)
            → number floats leaves a ≡ some l
            → number floats leaves b ≡ some r
            → Fits (node_type a) l
            → Fits (node_type a) r
            → number floats leaves y ≡ some (cut bool (eq_number l r)))
        → Folded floats leaves (binary eq_inst a b) y
    unfolding binary_type
    eq_rule y = total_rule floats leaves leaves-Fit eq_inst eq_number (eq-IsTotal floats) a b y c

    eq-same_rule : a ≡ b → Folded floats leaves (binary eq_inst a b) (build_const bool 1)
    eq-same_rule e =
        eq_rule (build_const bool 1) (build_const-type bool 1) (build_const-checked bool 1)
          (λ l r p q f g.
            let s : l ≡ r = some_eq (sym p ∙ ap (number floats leaves) e ∙ q) in
            number-build_const floats leaves bool 1
            ∙ ap some (ap (cut bool) (rw (sym s) (rw (eq→== l l refl) refl))))

    module _ (v : ℕ) (nb : number floats leaves b ≡ some v) where
      eq-one_rule :
          node_type a ≡ bool → (v == 0) ≡ false → Folded floats leaves (binary eq_inst a b) a
      eq-one_rule t h = eq_rule a t (checked-binary eq_inst a b c).left (λ l r p q f g.
          let s : r ≡ v = some_eq (sym q ∙ nb) in
          p ∙ ap some (rw s (sym (eq_number-one l v (rw t at f) (rw (t, s) at g) h))))

      eq-not_rule :
          node_type a ≡ bool → v ≡ 0 → Folded floats leaves (binary eq_inst a b) (inverted a)
      unfolding node_type binary_type
      eq-not_rule t z =
          let y = build_const (node_type a) (type_mask (node_type a)) in
          eq_rule (inverted a) t
            (inverted-checked a (rw t (unfold is_int_or_bool in refl))
              (checked-binary eq_inst a b c).left)
            (λ l r p q f g.
              let s : r ≡ 0 = some_eq (sym q ∙ nb) ∙ z in
              let m : cut (node_type a) (type_mask (node_type a)) ≡ type_mask (node_type a) =
                masked_self (node_type a) _ (type_mask-Fits (node_type a)) in
              bitwise_applied floats leaves leaves-Fit xor_inst bit_xor (xor-IsBitwise floats) a y l
                (type_mask (node_type a)) (sym (build_const-type (node_type a) _)) p
                (number-build_const floats leaves (node_type a) _ ∙ ap some m) f
                (type_mask-Fits (node_type a))
              ∙ ap some (
                  ap (bit_xor l) (ap type_mask t ∙ bool_mask)
                  ∙ sym (eq_number-zero l (rw t at f))
                  ∙ ap (λ i. cut bool (eq_number l i)) (sym s)))

      eq-xor_rule :
          (x y : Node)
          → a ≡ binary xor_inst x y
          → v ≡ 0
          → Folded floats leaves (binary eq_inst a b) (binary eq_inst x y)
      unfolding node_type binary_type binary_checks
      eq-xor_rule x y e z =
          let j = subst (λ w. checked w ≡ true) e (checked-binary eq_inst a b c).left in
          let k = checked-binary xor_inst x y j in
          eq_rule (binary eq_inst x y) refl
            (binary-checked eq_inst x y
              record { of_types = (both_true k.of_types).0; left = k.left; right = k.right })
            (λ l r p q f g.
              let s : r ≡ 0 = some_eq (sym q ∙ nb) ∙ z in
              let i =
                pieces floats leaves leaves-Fit xor_inst bit_xor (xor-IsBitwise floats) x y l j
                  (ap (number floats leaves) (sym e) ∙ p) in
              applied floats leaves leaves-Fit eq_inst eq_number (eq-IsTotal floats) x y i.left
                i.right i.types i.at_left i.at_right i.left-Fits i.right-Fits
              ∙ ap some
                  (ap (cut bool) (sym (ap₂ eq_number i.result s ∙ eq_number-xor i.left i.right))))

    eq_const-Folds :
        (n : ℕ) (again : Node → Node → Option Node) (v : ℕ)
        → number floats leaves b ≡ some v
        → size a + size b < suc n
        → ((x y : Node)
            → size x + size y < n
            → checked (binary eq_inst x y) ≡ true
            → Folds-to floats leaves (binary eq_inst x y) (again x y))
        → Folds-to floats leaves (binary eq_inst a b) (eq_const same again a b v)
    unfolding eq_const size
    eq_const-Folds n again v nb d good =
        let N = binary eq_inst a b in
        let P : Option Node → Type 0 = Folds-to floats leaves N in
        let last : P (some N) = kept floats leaves N c in
        if_cases P (same_type (node_type a) bool) _ _
          (λ h.
            let t = same_type→eq (node_type a) bool h in
            if_cases P (v == 0) _ _
              (λ q. then_folds floats leaves N (inverted a) _ (eq-not_rule v nb t (==→eq _ _ q)) (
                fold_not-Folds-to a (rw t (unfold is_int_or_bool in refl))
                  (checked-binary eq_inst a b c).left))
              (λ q. done floats leaves N a (eq-one_rule v nb t q)))
          (λ _.
            if_cases P (v == 0) _ _
              (λ q.
                when_some_cases P (as_xor a) _ _
                  (λ p f.
                    let e = as_xor-eq a p.0 p.1 f in
                    let h = eq-xor_rule v nb p.0 p.1 e (==→eq _ _ q) in
                    let s : size a ≡ 1 + size p.0 + size p.1 = ap size e in
                    then_folds floats leaves N _ _ h (good p.0 p.1 (omega arith) h.checks))
                  last)
              (λ _. last))

    eq_swapped-Folds :
        (n : ℕ) (again : Node → Node → Option Node)
        → size a + size b < suc n
        → ((x y : Node)
            → size x + size y < n
            → checked (binary eq_inst x y) ≡ true
            → Folds-to floats leaves (binary eq_inst x y) (again x y))
        → Folds-to floats leaves (binary eq_inst a b) (eq_swapped same again a b)
    unfolding eq_swapped
    eq_swapped-Folds n again d good =
        let N = binary eq_inst a b in
        let P : Option Node → Type 0 = Folds-to floats leaves N in
        if_cases P (same a b) _ _ (λ e. done floats leaves N _ (eq-same_rule (same-eq a b e)))
          (λ _.
            const_prop-Folds floats leaves leaves-Fit same same-eq (all_folds same) eq_inst
              eq_number (eq-IsTotal floats) a b c bool (unfold binary_type in refl)
              (λ z q. all-SelectsConsts floats leaves leaves-Fit same same-eq z) _
              (when_some_cases P (as_konst b) _ _
                (λ v p.
                  eq_const-Folds n again v
                    (view_number floats leaves b v (checked-binary eq_inst a b c).right p) d good)
                (kept floats leaves N c)))

  fold_eq_to-Folds :
      (n : ℕ) (a b : Node)
      → size a + size b < n
      → checked (binary eq_inst a b) ≡ true
      → Folds-to floats leaves (binary eq_inst a b) (fold_eq_to same n a b)
  unfolding fold_eq_to
  fold_eq_to-Folds zero a b d c = absurd (omega arith)
  fold_eq_to-Folds (suc n) a b d c =
      let h =
        commuted floats leaves leaves-Fit eq_inst eq_number (eq-IsTotal floats) eq_number_comm a b
          c in
      if_cases (Folds-to floats leaves (binary eq_inst a b)) (is_konst a) _ _
        (λ _.
          then_folds floats leaves (binary eq_inst a b) (binary eq_inst b a) _ h (
            eq_swapped-Folds b a h.checks n (fold_eq_to same n) (omega arith) (fold_eq_to-Folds n)))
        (λ _. eq_swapped-Folds a b c n (fold_eq_to same n) d (fold_eq_to-Folds n))

  pub fold_eq-Folds-to :
      (a b : Node)
      → checked (binary eq_inst a b) ≡ true
      → Folds-to floats leaves (binary eq_inst a b) (fold_eq same a b)
  unfolding fold_eq
  fold_eq-Folds-to a b c = fold_eq_to-Folds (1 + (size a + size b)) a b (omega arith) c

  lt-zero_rule :
      (a b : Node)
      → checked (binary lt_u_inst a b) ≡ true
      → number floats leaves b ≡ some 0
      → Folded floats leaves (binary lt_u_inst a b) (build_const bool 0)
  unfolding binary_type
  lt-zero_rule a b c e =
      total_rule floats leaves leaves-Fit lt_u_inst lt_number (lt_u-IsTotal floats) a b
        (build_const bool 0) c (build_const-type bool 0) (build_const-checked bool 0)
        (λ l r p q f g.
          let s : r ≡ 0 = some_eq (sym q ∙ e) in
          number-build_const floats leaves bool 0
          ∙ ap (λ i. some (cut bool i)) (sym (ap (lt_number l) s ∙ lt_number-zero l)))

  pub fold_lt_u-Folds-to :
      (a b : Node)
      → checked (binary lt_u_inst a b) ≡ true
      → Folds-to floats leaves (binary lt_u_inst a b) (fold_lt_u same a b)
  unfolding fold_lt_u
  fold_lt_u-Folds-to a b c =
      let N = binary lt_u_inst a b in
      let P : Option Node → Type 0 = Folds-to floats leaves N in
      const_prop-Folds floats leaves leaves-Fit same same-eq (all_folds same) lt_u_inst lt_number
        (lt_u-IsTotal floats) a b c bool (unfold binary_type in refl)
        (λ z q. all-SelectsConsts floats leaves leaves-Fit same same-eq z) _
        (when_some_cases P (as_konst b) _ _
          (λ v p.
            let nb = view_number floats leaves b v (checked-binary lt_u_inst a b c).right p in
            if_cases (λ (y : Node). P (some y)) (v == 0) _ _
              (λ q. done floats leaves N _ (lt-zero_rule a b c (nb ∙ ap some (==→eq _ _ q))))
              (λ _. kept floats leaves N c))
          (kept floats leaves N c))
