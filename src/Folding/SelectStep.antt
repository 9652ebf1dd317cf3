-- ===== src/Folding/SelectStep.antt =====
-- `fold_select` of `Builder` (jitir.tmpl.hpp), by the folds that it calls.
use mathlib.Core.Path.{subst}
use metajit_cpp.Types.{IrType, bool, same_type}
use metajit_cpp.Ir.{and_inst, or_inst, xor_inst}
use metajit_cpp.Ir.Checks.{binary_type, same_type→eq}
use metajit_cpp.Interpreter.Eval as IE
use metajit_cpp.Folding.{Node, konst, binary, node_type, checked, build_const}
use metajit_cpp.Folding.Numbers.{number, Folded, Folded-refl, Folded-trans, Folds-to}
use metajit_cpp.Folding.Operands.{Fits}
use metajit_cpp.Base.{ℕ, Bool, true, Option, some, ◌≡◌, refl, sym, ap, ◌∙◌, some_eq, ◌==◌, ==→eq}
use metajit_cpp.Folding.Rules.{konst_number}
use metajit_cpp.Folding.{select}
use metajit_cpp.Folding.Checked.{checked-select}
use metajit_cpp.Base.{inl, inr}
use metajit_cpp.Folding.{select, is_konst, as_konst}
use metajit_cpp.Folding.Cases.{when_some_cases, if_cases}
use metajit_cpp.Folding.Checked.{both_true, checked-select}
use metajit_cpp.Folding.Consts.{Folds}
use metajit_cpp.Folding.Bitwise.{
  size, as_select, select_nested, select_bool, select_bool_consts, select_swapped,
}
use metajit_cpp.Folding.ConstProp.{as_konst-eq}
use metajit_cpp.Folding.Good.{Safe, Selects-to, Good}
use metajit_cpp.Folding.SelectRules.{nested_true_rule, nested_false_rule}
use metajit_cpp.Folding.BoolRules.{one_zero_rule, zero_one_rule}
use metajit_cpp.Folding.ArmRules.{or_arm-checked, and_arm-checked, or_arm_rule, and_arm_rule}
use metajit_cpp.Base.{suc, ◌+◌, ◌*◌, ◌<◌, inl, inr, arith, ◌&&◌}

as_select-eq : (a z x y : Node) → as_select a ≡ some (z, x, y) → a ≡ select z x y
unfolding as_select
as_select-eq (select c p q) z x y h =
    let e : (c, p, q) ≡ (z, x, y) = some_eq h in
    ap (λ (t : Node × Node × Node). select t.0 t.1 t.2) e
as_select-eq _ z x y h = cc

select_not_konst : (z x y : Node) → is_konst (select z x y) ≡ true → ⊥
unfolding is_konst
select_not_konst z x y h = cc

module _ (floats : IE.FloatUnit) (leaves : ℕ → IrType → Option ℕ)
    (leaves-Fit : (n : ℕ) (t : IrType) (v : ℕ) → leaves n t ≡ some v → Fits t v) where
  konst_holds :
      (a : Node)
      → is_konst a ≡ true
      → checked a ≡ true
      → (n : ℕ) × (number floats leaves a ≡ some n)
  unfolding is_konst
  konst_holds (konst t v) h c = (v, konst_number floats leaves leaves-Fit t v c)
  konst_holds _ h c = cc

  select_typed :
      (z a b y : Node) → Folded floats leaves (select z a b) y → node_type y ≡ node_type a
  unfolding node_type
  select_typed z a b y h = h.typed

  module _ (z a b : Node) where
    selects_by :
        (y : Node) (o : Option Node)
        → node_type y ≡ node_type a
        → (Safe a b → Folded floats leaves (select z a b) y)
        → Folds-to floats leaves y o
        → Selects-to floats leaves z a b o
    selects_by y o t h (r, e, k) = (
      r,
      e,
      record {
        typed = k.typed ∙ t;
        checks = k.checks;
        folded = λ s. Folded-trans floats leaves _ y r (h s) k;
      },
    )

    pub selects_done :
        (r : Node) → Folded floats leaves (select z a b) r → Selects-to floats leaves z a b (some r)
    unfolding node_type
    selects_done r h = (r, refl, record { typed = h.typed; checks = h.checks; folded = λ s. h })

    pub selects_then :
        (w x y : Node) (o : Option Node)
        → Folded floats leaves (select z a b) (select w x y)
        → (Safe a b → Safe x y)
        → Selects-to floats leaves w x y o
        → Selects-to floats leaves z a b o
    unfolding node_type
    selects_then w x y o h safe (r, e, k) = (
      r,
      e,
      record {
        typed = k.typed ∙ h.typed;
        checks = k.checks;
        folded = λ s. Folded-trans floats leaves _ _ _ h (k.folded (safe s));
      },
    )

  module _ (same : Node → Node → Bool) (same-eq : (x y : Node) → same x y ≡ true → x ≡ y)
      (folds : Folds) (n : ℕ) (good : Good floats leaves folds n) (z a b : Node)
      (d : 2 * (size z + (size a + size b)) + 1 < suc n) (c : checked (select z a b) ≡ true) where
    kept_select : Selects-to floats leaves z a b (some (select z a b))
    kept_select = selects_done z a b (select z a b) (Folded-refl floats leaves (select z a b) c)

    nested_true :
        (x y : Node) → a ≡ select z x y → Selects-to floats leaves z a b (folds.select_ z x b)
    unfolding size node_type
    nested_true x y e =
        let h = nested_true_rule floats leaves leaves-Fit z a b c x y e in
        let s : size a ≡ 1 + size z + size x + size y = ap size e in
        selects_then z a b z x b _ h
          (λ (safe : Safe a b). elim safe [
            | inl f ↦ inl (λ g. f (sym h.typed ∙ g))
            | inr p ↦ absurd (select_not_konst z x y (subst (λ i. is_konst i ≡ true) e p.0))
          ])
          (good.selects z x b (omega arith) h.checks)

    nested_false :
        (x y : Node) → b ≡ select z x y → Selects-to floats leaves z a b (folds.select_ z a y)
    unfolding size
    nested_false x y e =
        let h = nested_false_rule floats leaves leaves-Fit z a b c x y e in
        let s : size b ≡ 1 + size z + size x + size y = ap size e in
        selects_then z a b z a y _ h
          (λ (safe : Safe a b). elim safe [
            | inl f ↦ inl f
            | inr p ↦ absurd (select_not_konst z x y (subst (λ i. is_konst i ≡ true) e p.1))
          ])
          (good.selects z a y (omega arith) h.checks)

    select_nested-Selects : Selects-to floats leaves z a b (select_nested same folds z a b)
    unfolding select_nested
    select_nested-Selects =
        let P : Option Node → Type 0 = Selects-to floats leaves z a b in
        let inner =
          when_some_cases P (as_select b) _ _
            (λ s p.
              if_cases P (same s.0 z) _ _
                (λ e.
                  nested_false s.1 s.2
                    (as_select-eq b s.0 s.1 s.2 p ∙ ap (λ i. select i s.1 s.2) (same-eq s.0 z e)))
                (λ e. kept_select))
            kept_select in
        when_some_cases P (as_select a) _ _
          (λ s p.
            if_cases P (same s.0 z) _ _
              (λ e.
                nested_true s.1 s.2
                  (as_select-eq a s.0 s.1 s.2 p ∙ ap (λ i. select i s.1 s.2) (same-eq s.0 z e)))
              (λ e. inner))
          inner

    module _ (of_bool : node_type a ≡ bool) where
      numbers_of_Safe :
          Safe a b
          → (m : ℕ) × (number floats leaves a ≡ some m)
            × ((k : ℕ) × (number floats leaves b ≡ some k))
      numbers_of_Safe safe = elim safe [
        | inl f ↦ absurd (f of_bool)
        | inr p ↦
            let j = checked-select z a b c in
            let (m, f) = konst_holds a p.0 j.left in (m, f, konst_holds b p.1 j.right)
      ]

      select_bool-Selects : Selects-to floats leaves z a b (select_bool same folds z a b)
      unfolding select_bool node_type binary_type
      select_bool-Selects =
          let P : Option Node → Type 0 = Selects-to floats leaves z a b in
          let j = checked-select z a b c in
          if_cases P (same z a) _ _
            (λ e.
              selects_by z a b (binary or_inst z b) _ (j.of_cond ∙ sym of_bool)
                (λ safe.
                  let (m, f, q) = numbers_of_Safe safe in
                  or_arm_rule floats leaves leaves-Fit z a b c of_bool q.0 (same-eq z a e) q.1)
                (good.ors z b (omega arith)
                  (or_arm-checked floats leaves leaves-Fit z a b c of_bool)))
            (λ _.
              if_cases P (same z b) _ _
                (λ e.
                  selects_by z a b (binary and_inst z a) _ (j.of_cond ∙ sym of_bool)
                    (λ safe.
                      let (m, f, q) = numbers_of_Safe safe in
                      and_arm_rule floats leaves leaves-Fit z a b c of_bool m (same-eq z b e) f)
                    (good.ands z a (omega arith)
                      (and_arm-checked floats leaves leaves-Fit z a b c of_bool)))
                (λ _. select_nested-Selects))

      select_bool_consts-Selects :
          Selects-to floats leaves z a b (select_bool_consts same folds z a b)
      unfolding select_bool_consts build_const size
      select_bool_consts-Selects =
          let P : Option Node → Type 0 = Selects-to floats leaves z a b in
          when_some_cases P (as_konst a) _ _
            (λ x p.
              when_some_cases P (as_konst b) _ _
                (λ y q.
                  let ea = as_konst-eq a x p in
                  let eb = as_konst-eq b y q in
                  if_cases P (x == 1 && y == 0) _ _
                    (λ h.
                      let (f, g) = both_true h in
                      selects_done z a b z (
                        one_zero_rule floats leaves leaves-Fit z a b c (node_type a) (node_type b) x
                          y ea eb of_bool (==→eq _ _ f) (==→eq _ _ g)))
                    (λ _.
                      if_cases P (x == 0 && y == 1) _ _
                        (λ h.
                          let (f, g) = both_true h in
                          let r =
                            zero_one_rule floats leaves leaves-Fit z a b c (node_type a)
                              (node_type b) x y ea eb of_bool (==→eq _ _ f) (==→eq _ _ g) in
                          selects_by z a b (binary xor_inst z (build_const bool 1)) _
                            (select_typed z a b _ r) (λ _. r)
                            (good.xors z (build_const bool 1) (omega arith) r.checks))
                        (λ _. select_bool-Selects)))
                select_bool-Selects)
            select_bool-Selects

    pub select_swapped-Selects : Selects-to floats leaves z a b (select_swapped same folds z a b)
    unfolding select_swapped
    select_swapped-Selects =
        if_cases (Selects-to floats leaves z a b) (same_type (node_type a) bool) _ _
          (λ h. select_bool_consts-Selects (same_type→eq (node_type a) bool h))
          (λ _. select_nested-Selects)
