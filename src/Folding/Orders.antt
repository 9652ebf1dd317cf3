-- ===== src/Folding/Orders.antt =====
-- `fold_ne`, `fold_gt_u`, `fold_le_u` and `fold_ge_u` of `Builder` (jitir.tmpl.hpp) on numbers.
use mathlib.Core.Path.{subst}
use metajit_cpp.Types.{IrType, bool, type_mask}
use metajit_cpp.Ir.{xor_inst}
use metajit_cpp.Ir.Checks.{binary_checks, binary_type}
use metajit_cpp.Interpreter.Eval as IE
use metajit_cpp.Soundness.Operators.{masked_self}
use metajit_cpp.Folding.{Node, binary, node_type, checked, build_const}
use metajit_cpp.Folding.Bits.{type_mask-Fits}
use metajit_cpp.Folding.Checked.{checked-binary, binary-checked}
use metajit_cpp.Folding.Numbers.{number}
use metajit_cpp.Folding.Operands.{Fits, applied, number-Fits}
use metajit_cpp.Folding.ConstProp.{build_const-type, number-build_const}
use metajit_cpp.Base.{ℕ, Bool, true, Option, some, ◌≡◌, refl, sym, ap, ◌∙◌, bit_xor, ◌==◌}
use metajit_cpp.Folding.Rules.{xor-IsBitwise, bitwise_applied}
use metajit_cpp.Base.{if◌then◌else◌, false}
use metajit_cpp.Types.{type_width, is_int_or_bool}
use metajit_cpp.Ir.{eq_inst, lt_u_inst}
use metajit_cpp.Folding.Checked.{both_true}
use metajit_cpp.Folding.Bitwise.{fold_not}
use metajit_cpp.Folding.Compare.{fold_eq, fold_ne, fold_lt_u, fold_gt_u, fold_le_u, fold_ge_u}
use metajit_cpp.Folding.Totals.{eq-IsTotal, lt_u-IsTotal, eq_number, lt_number}
use metajit_cpp.Folding.Rules.{xor-IsBitwise, bitwise_applied}
use metajit_cpp.Folding.Comparisons.{fold_not-Folds-to, fold_eq-Folds-to, fold_lt_u-Folds-to}
use metajit_cpp.Base.{arith, if◌then◌else◌, false, ltb, leb, not, ◌>>=◌}

-- The number of a Boolean.
abbrev pub flag : Bool → ℕ
flag c = if c then 1 else 0

flag-Fits : (c : Bool) → Fits bool (flag c)
unfolding type_width
flag-Fits true = omega arith
flag-Fits false = omega arith

flag_inverted : (c : Bool) → bit_xor (flag c) (type_mask bool) ≡ flag (not c)
unfolding type_mask
flag_inverted true = refl
flag_inverted false = refl

not_above : (x y : ℕ) → not (ltb y x) ≡ leb x y
not_above x y = ground arith

module _ (floats : IE.FloatUnit) (leaves : ℕ → IrType → Option ℕ)
    (leaves-Fit : (n : ℕ) (t : IrType) (v : ℕ) → leaves n t ≡ some v → Fits t v)
    (same : Node → Node → Bool) (same-eq : (x y : Node) → same x y ≡ true → x ≡ y) where
  -- A Boolean fold that holds a truth value.
  pub record Holds (c : Bool) (o : Option Node) : Type 0 where
    pub node : Node
    pub given : o ≡ some node
    pub typed : node_type node ≡ bool
    pub checks : checked node ≡ true
    pub holds : number floats leaves node ≡ some (flag c)

  inverted-Holds :
      (c : Bool) (o : Option Node) → Holds c o → Holds (not c) (do r ← o; fold_not same r)
  unfolding node_type binary_type
  inverted-Holds c o h =
      let m = type_mask (node_type h.node) in
      let y = build_const (node_type h.node) m in
      let (r, e, k) =
        fold_not-Folds-to floats leaves leaves-Fit same same-eq h.node
          (rw h.typed (unfold is_int_or_bool in refl)) h.checks in
      record {
        node = r;
        given = rw h.given e;
        typed = k.typed ∙ h.typed;
        checks = k.checks;
        holds = k.same_number (flag (not c)) (
            bitwise_applied floats leaves leaves-Fit xor_inst bit_xor (xor-IsBitwise floats) h.node
              y (flag c) m (sym (build_const-type (node_type h.node) m)) h.holds
              (number-build_const floats leaves (node_type h.node) m
                ∙ ap some (masked_self (node_type h.node) m (type_mask-Fits (node_type h.node))))
              (rw h.typed (flag-Fits c)) (type_mask-Fits (node_type h.node))
            ∙ ap some (ap (λ t. bit_xor (flag c) (type_mask t)) h.typed ∙ flag_inverted c));
      }

  module _ (a b : Node) (x y : ℕ) (at_a : number floats leaves a ≡ some x)
      (at_b : number floats leaves b ≡ some y) where
    eq-Holds : checked (binary eq_inst a b) ≡ true → Holds (x == y) (fold_eq same a b)
    unfolding node_type binary_type
    eq-Holds c =
        let (r, e, k) = fold_eq-Folds-to floats leaves leaves-Fit same same-eq a b c in
        let j = checked-binary eq_inst a b c in
        let t = (eq-IsTotal floats).same_types (node_type a) (node_type b) j.of_types in
        record {
          node = r;
          given = e;
          typed = k.typed;
          checks = k.checks;
          holds = k.same_number (flag (x == y)) (
              applied floats leaves leaves-Fit eq_inst eq_number (eq-IsTotal floats) a b x y t at_a
                at_b (number-Fits floats leaves leaves-Fit a x j.left at_a)
                (rw t (number-Fits floats leaves leaves-Fit b y j.right at_b))
              ∙ ap some (masked_self bool (flag (x == y)) (flag-Fits (x == y))));
        }

  module _ (a b : Node) (x y : ℕ) (at_a : number floats leaves a ≡ some x)
      (at_b : number floats leaves b ≡ some y) where
    lt-Holds : checked (binary lt_u_inst a b) ≡ true → Holds (ltb x y) (fold_lt_u same a b)
    unfolding node_type binary_type
    lt-Holds c =
        let (r, e, k) = fold_lt_u-Folds-to floats leaves leaves-Fit same same-eq a b c in
        let j = checked-binary lt_u_inst a b c in
        let t = (lt_u-IsTotal floats).same_types (node_type a) (node_type b) j.of_types in
        record {
          node = r;
          given = e;
          typed = k.typed;
          checks = k.checks;
          holds = k.same_number (flag (ltb x y)) (
              applied floats leaves leaves-Fit lt_u_inst lt_number (lt_u-IsTotal floats) a b x y t
                at_a at_b (number-Fits floats leaves leaves-Fit a x j.left at_a)
                (rw t (number-Fits floats leaves leaves-Fit b y j.right at_b))
              ∙ ap some (masked_self bool (flag (ltb x y)) (flag-Fits (ltb x y))));
        }

  swapped-checked :
      (a b : Node) → checked (binary lt_u_inst a b) ≡ true → checked (binary lt_u_inst b a) ≡ true
  swapped-checked a b c =
      let j = checked-binary lt_u_inst a b c in
      let t = (lt_u-IsTotal floats).same_types (node_type a) (node_type b) j.of_types in
      binary-checked lt_u_inst b a record {
        of_types =
            subst (λ u. binary_checks lt_u_inst u (node_type a) ≡ true) t
              (subst (λ u. binary_checks lt_u_inst (node_type a) u ≡ true) (sym t) j.of_types);
        left = j.right;
        right = j.left;
      }

  eq-checked :
      (a b : Node) → checked (binary lt_u_inst a b) ≡ true → checked (binary eq_inst a b) ≡ true
  unfolding binary_checks
  eq-checked a b c =
      let j = checked-binary lt_u_inst a b c in
      binary-checked eq_inst a b
        record { of_types = (both_true j.of_types).0; left = j.left; right = j.right }

  -- If `a` and `b` pass the checks of an unsigned comparison and hold the numbers `x` and `y`,
  -- equal pointers are equal values, and the values that no fold looks into hold numbers of their
  -- types, then `fold_eq`, `fold_ne`, `fold_lt_u`, `fold_gt_u`, `fold_le_u` and `fold_ge_u` end
  -- and give checked Booleans that hold the truth of x = y, x ≠ y, x < y, y < x, x ≤ y and y ≤ x.
  pub fold_comparisons-Hold :
      (a b : Node) (x y : ℕ)
      → checked (binary lt_u_inst a b) ≡ true
      → number floats leaves a ≡ some x
      → number floats leaves b ≡ some y
      → Holds (x == y) (fold_eq same a b)
        × Holds (not (x == y)) (fold_ne same a b)
        × Holds (ltb x y) (fold_lt_u same a b)
        × Holds (ltb y x) (fold_gt_u same a b)
        × Holds (leb x y) (fold_le_u same a b)
        × Holds (leb y x) (fold_ge_u same a b)
  unfolding fold_ne fold_gt_u fold_le_u fold_ge_u
  fold_comparisons-Hold a b x y c p q =
      let k = swapped-checked a b c in
      let e = eq-Holds a b x y p q (eq-checked a b c) in
      (
        e,
        inverted-Holds (x == y) (fold_eq same a b) e,
        lt-Holds a b x y p q c,
        lt-Holds b a y x q p k,
        rw (not_above x y) at
            (inverted-Holds (ltb y x) (fold_lt_u same b a) (lt-Holds b a y x q p k)),
        rw (not_above y x) at
            (inverted-Holds (ltb x y) (fold_lt_u same a b) (lt-Holds a b x y p q c)),
      )
