-- ===== src/Folding/Propagation.antt =====
-- `do_binop_const_prop` of `Builder` (jitir.tmpl.hpp) against the interpreter.
use mathlib.Core.Path.{subst}
use metajit_cpp.Types.{IrType, bool}
use metajit_cpp.Ir.{BinOp}
use metajit_cpp.Ir.Checks.{binary_type}
use metajit_cpp.Interpreter.Eval as IE
use metajit_cpp.Folding.{Node, binary, select, node_type, checked, build_const, as_konst}
use metajit_cpp.Folding.Cases.{when_some_cases, if_cases}
use metajit_cpp.Folding.Checked.{checked-select, checked-binary, select-checked}
use metajit_cpp.Folding.Consts.{
  Folds, ConstSelect, is_const_select, is_const_select_like, select_const_prop, selects_const_prop,
  do_binop_const_prop, or_else,
}
use metajit_cpp.Folding.Bitwise.{size}
use metajit_cpp.Folding.Numbers.{number, Folded, Folded-trans, Folds-to}
use metajit_cpp.Folding.Operands.{Fits, cut, IsTotal, operands}
use metajit_cpp.Base.{
  ℕ, ◌+◌, ◌<◌, Bool, true, Option, none, some, ◌≡◌, refl, sym, ap, ◌∙◌, ◌==◌, some_eq,
  if◌then◌else◌, Bool-cases, inl, inr, arith,
}
use metajit_cpp.Folding.ConstProp.{
  build_const-checked, build_const-type, as_konst-eq, view_number, IsConstSelect,
  is_const_select-IsConstSelect, number-build_const, Chooses, konst-Chooses, select-Chooses,
  cond_number, SelectsConsts, fold_select_consts-Folds,
}

module _ (floats : IE.FloatUnit) (leaves : ℕ → IrType → Option ℕ)
    (leaves-Fit : (n : ℕ) (t : IrType) (v : ℕ) → leaves n t ≡ some v → Fits t v)
    (same : Node → Node → Bool) (same-eq : (x y : Node) → same x y ≡ true → x ≡ y) (folds : Folds)
    (o : BinOp) (g : ℕ → ℕ → ℕ) (total : IsTotal floats o g) (a b : Node)
    (c : checked (binary o a b) ≡ true) (t : IrType)
    (of_type : binary_type o (node_type a) ≡ t) where
  number-select :
      (z x y : Node) (w : ℕ)
      → number floats leaves z ≡ some w
      → number floats leaves (select z x y)
        ≡ (if w == 0 then number floats leaves y else number floats leaves x)
  unfolding number
  number-select z x y w e = rw e refl

  chosen :
      (w x y x' y' v : ℕ) (m n : ℕ)
      → m ≡ (if w == 0 then y else x)
      → n ≡ (if w == 0 then y' else x')
      → v ≡ cut t (g m n)
      → (if w == 0
          then number floats leaves (build_const t (g y y'))
          else number floats leaves (build_const t (g x x')))
        ≡ some v
  chosen w x y x' y' v m n p q e = elim (Bool-cases (w == 0)) [
    | inl h ↦
        let p' = rw h at p in
        let q' = rw h at q in
        rw h (number-build_const floats leaves t (g y y') ∙ ap some (rw (sym p', sym q') (sym e)))
    | inr h ↦
        let p' = rw h at p in
        let q' = rw h at q in
        rw h (number-build_const floats leaves t (g x x') ∙ ap some (rw (sym p', sym q') (sym e)))
  ]

  select_built :
      (z : Node) (x y x' y' : ℕ)
      → checked z ≡ true
      → node_type z ≡ bool
      → Chooses floats leaves a z x y
      → Chooses floats leaves b z x' y'
      → ((v : ℕ)
          → number floats leaves (binary o a b) ≡ some v
          → (w : ℕ) × (number floats leaves z ≡ some w))
      → Folded floats leaves
          (binary o a b)
          (select z (build_const t (g x x')) (build_const t (g y y')))
  select_built z x y x' y' k n p q decided = record {
    typed = unfold node_type build_const in sym of_type;
    checks = select-checked z (build_const t (g x x')) (build_const t (g y y')) record {
      of_cond = n;
      of_arms = unfold node_type build_const in refl;
      cond = k;
      left = build_const-checked t (g x x');
      right = build_const-checked t (g y y');
    };
    same_number = λ v e.
        let (w, r) = decided v e in
        let s = operands floats leaves leaves-Fit o g total a b v c e in
        let l : s.left ≡ (if w == 0 then y else x) = some_eq (sym s.at_left ∙ p.choice w r) in
        let m : s.right ≡ (if w == 0 then y' else x') = some_eq (sym s.at_right ∙ q.choice w r) in
        number-select z (build_const t (g x x')) (build_const t (g y y')) w r
        ∙ chosen w x y x' y' v s.left s.right l m
            (s.result ∙ ap (λ u. cut u (g s.left s.right)) of_type);
  }

  -- `do_binop_const_prop` of two selects.
  select_const_prop-Folds :
      (s u : ConstSelect)
      → checked s.cond ≡ true
      → node_type s.cond ≡ bool
      → SelectsConsts floats leaves folds s.cond
      → Chooses floats leaves a s.cond s.true_const s.false_const
      → Chooses floats leaves b s.cond u.true_const u.false_const
      → ((v : ℕ)
          → number floats leaves (binary o a b) ≡ some v
          → (w : ℕ) × (number floats leaves s.cond ≡ some w))
      → Folds-to floats leaves
          (binary o a b)
          (select_const_prop same folds s u t (λ x y. some (g x y)))
  unfolding select_const_prop
  select_const_prop-Folds s u k n h p q decided =
      let f =
        select_built s.cond s.true_const s.false_const u.true_const u.false_const k n p q decided in
      let (r, e, j) =
        fold_select_consts-Folds floats leaves same folds s.cond t (g s.true_const u.true_const)
          (g s.false_const u.false_const) h f.checks in
      (r, e, Folded-trans floats leaves _ _ _ f j)

  -- The conditions of selects below the node are smaller than it.
  module _
      (below : (z : Node) → size z < size a + size b → SelectsConsts floats leaves folds z) where
    cond_facts :
        (n : Node) (s : ConstSelect)
        → IsConstSelect n s
        → checked n ≡ true
        → (checked s.cond ≡ true) × (node_type s.cond ≡ bool) × (size s.cond < size n)
    unfolding size
    cond_facts n s h k =
        let j = checked-select _ _ _ (subst (λ m. checked m ≡ true) h.shape k) in
        (j.cond, j.of_cond, rw h.shape (omega arith))

    like-Chooses :
        (n z : Node) (s : ConstSelect)
        → checked n ≡ true
        → is_const_select_like same n z ≡ some s
        → (s.cond ≡ z) × Chooses floats leaves n z s.true_const s.false_const
    unfolding is_const_select_like
    like-Chooses n z s k e =
        let Q : ConstSelect → Type 0 =
          λ u. (u.cond ≡ z) × Chooses floats leaves n z u.true_const u.false_const in
        let P : Option ConstSelect → Type 0 = λ r. r ≡ some s → Q s in
        when_some_cases P (as_konst n) _ _
          (λ x p h.
            let q = as_konst-eq n x p in
            subst Q (some_eq h) (
              refl,
              subst (λ m. Chooses floats leaves m z x x) (sym q)
                  (konst-Chooses floats leaves (node_type n) x z
                    (subst (λ m. checked m ≡ true) q k)),
            ))
          (when_some_cases P (is_const_select n) _ _
            (λ u p.
              if_cases P (same u.cond z) (some u) none
                (λ q h.
                  let j = same-eq u.cond z q in
                  subst Q (some_eq h) (
                    j,
                    subst (λ m. Chooses floats leaves n m u.true_const u.false_const) j
                        (select-Chooses floats leaves n u (is_const_select-IsConstSelect n u p) k),
                  ))
                (λ q h. cc))
            (λ h. cc))
          e

    of_left :
        (s u : ConstSelect)
        → checked a ≡ true
        → checked b ≡ true
        → is_const_select a ≡ some s
        → is_const_select_like same b s.cond ≡ some u
        → Folds-to floats leaves
            (binary o a b)
            (select_const_prop same folds s u t (λ x y. some (g x y)))
    of_left s u ka kb p q =
        let i = is_const_select-IsConstSelect a s p in
        let (k, n, l) = cond_facts a s i ka in
        select_const_prop-Folds s u k n (below s.cond (omega arith))
          (select-Chooses floats leaves a s i ka) (like-Chooses b s.cond u kb q).1
          (λ v e.
            let r = operands floats leaves leaves-Fit o g total a b v c e in
            cond_number floats leaves a s r.left i r.at_left)

    of_right :
        (s u : ConstSelect)
        → checked a ≡ true
        → checked b ≡ true
        → is_const_select b ≡ some u
        → is_const_select_like same a u.cond ≡ some s
        → Folds-to floats leaves
            (binary o a b)
            (select_const_prop same folds s u t (λ x y. some (g x y)))
    of_right s u ka kb p q =
        let i = is_const_select-IsConstSelect b u p in
        let (k, n, l) = cond_facts b u i kb in
        let (e, f) = like-Chooses a u.cond s ka q in
        let decided : (v : ℕ)
            → number floats leaves (binary o a b) ≡ some v
            → (w : ℕ) × (number floats leaves u.cond ≡ some w) =
          λ v d.
            let r = operands floats leaves leaves-Fit o g total a b v c d in
            cond_number floats leaves b u r.right i r.at_right in
        select_const_prop-Folds s u (rw e k) (rw e n) (rw e (below u.cond (omega arith))) (rw e f)
          (rw e (select-Chooses floats leaves b u i kb)) (rw e decided)

    selects-Folds :
        (k : Option Node)
        → Folds-to floats leaves (binary o a b) k
        → Folds-to floats leaves
            (binary o a b)
            (or_else (selects_const_prop same folds a b t (λ x y. some (g x y))) k)
    unfolding selects_const_prop
    selects-Folds k h =
        let P : Option (Option Node) → Type 0 =
          λ r. Folds-to floats leaves (binary o a b) (or_else r k) in
        let j = checked-binary o a b c in
        when_some_cases P (is_const_select a) _ _
          (λ s p.
            when_some_cases P (is_const_select_like same b s.cond) _ _
              (λ u q. of_left s u j.left j.right p q) h)
          (when_some_cases P (is_const_select b) _ _
            (λ u p.
              when_some_cases P (is_const_select_like same a u.cond) _ _
                (λ s q. of_right s u j.left j.right p q) h)
            h)

    both_konst :
        (x y : ℕ)
        → as_konst a ≡ some x
        → as_konst b ≡ some y
        → Folded floats leaves (binary o a b) (build_const t (g x y))
    both_konst x y p q =
        let k = checked-binary o a b c in
        record {
          typed = build_const-type t (g x y) ∙ sym (unfold node_type in of_type);
          checks = build_const-checked t (g x y);
          same_number = λ v e.
              let s = operands floats leaves leaves-Fit o g total a b v c e in
              let l = some_eq (sym s.at_left ∙ view_number floats leaves a x k.left p) in
              let m = some_eq (sym s.at_right ∙ view_number floats leaves b y k.right q) in
              number-build_const floats leaves t (g x y)
              ∙ ap some (
                  rw (sym l, sym m)
                    (ap (λ u. cut u (g s.left s.right)) (sym of_type) ∙ sym s.result));
        }

    -- The code before a fold's rules.
    pub const_prop-Folds :
        (k : Option Node)
        → Folds-to floats leaves (binary o a b) k
        → Folds-to floats leaves
            (binary o a b)
            (or_else (do_binop_const_prop same folds a b t (λ x y. some (g x y))) k)
    unfolding do_binop_const_prop
    const_prop-Folds k h =
        let P : Option (Option Node) → Type 0 =
          λ r. Folds-to floats leaves (binary o a b) (or_else r k) in
        when_some_cases P (as_konst a) _ _
          (λ x p.
            when_some_cases P (as_konst b) _ _
              (λ y q. (build_const t (g x y), refl, both_konst x y p q)) (selects-Folds k h))
          (selects-Folds k h)
