-- ===== src/Folding/ConstProp.antt =====
-- The propagation of constants in `Builder` (`do_binop_const_prop` in jitir.tmpl.hpp) against the
-- interpreter.
use mathlib.Core.Path.{subst}
use metajit_cpp.Types.{IrType}
use metajit_cpp.Interpreter.Eval as IE
use metajit_cpp.Soundness.Operators.{masked_self}
use metajit_cpp.Folding.{Node, konst, select, node_type, checked, build_const, as_konst}
use metajit_cpp.Folding.Cases.{if_cases}
use metajit_cpp.Folding.Checked.{checked-select, checked-konst, konst-checked}
use metajit_cpp.Folding.Consts.{Folds, ConstSelect, is_const_select, fold_select_consts}
use metajit_cpp.Folding.Numbers.{number, Folded, Folds-to}
use metajit_cpp.Folding.Operands.{cut, cut-Fits}
use metajit_cpp.Base.{
  ℕ, Bool, true, Option, some, ◌≡◌, refl, sym, ap, >>=-eq-some, ◌==◌, ==→eq, some_eq, if◌then◌else◌,
}

pub cut-cut : (t : IrType) (v : ℕ) → cut t (cut t v) ≡ cut t v
cut-cut t v = masked_self t (cut t v) (cut-Fits t v)

pub build_const-checked : (t : IrType) (v : ℕ) → checked (build_const t v) ≡ true
unfolding build_const
build_const-checked t v = konst-checked t (cut t v) (cut-cut t v)

pub build_const-type : (t : IrType) (v : ℕ) → node_type (build_const t v) ≡ t
unfolding build_const node_type
build_const-type t v = refl

-- What the view of a constant says.
pub as_konst-eq : (n : Node) (v : ℕ) → as_konst n ≡ some v → n ≡ konst (node_type n) v
unfolding as_konst node_type
as_konst-eq (konst t w) v h = cc
as_konst-eq _ v h = cc

-- A select between two constants.
pub record IsConstSelect (n : Node) (s : ConstSelect) : Type 0 where
  pub true_type : IrType
  pub false_type : IrType
  pub shape : n ≡ select s.cond (konst true_type s.true_const) (konst false_type s.false_const)

pub is_const_select-IsConstSelect :
    (n : Node) (s : ConstSelect) → is_const_select n ≡ some s → IsConstSelect n s
unfolding is_const_select as_konst
is_const_select-IsConstSelect (select c (konst t x) (konst u y)) s h =
    subst (IsConstSelect (select c (konst t x) (konst u y))) (some_eq h)
      record { true_type = t; false_type = u; shape = refl }
is_const_select-IsConstSelect _ s h = cc

module _ (floats : IE.FloatUnit) (leaves : ℕ → IrType → Option ℕ) where
  pub number-build_const :
      (t : IrType) (v : ℕ) → number floats leaves (build_const t v) ≡ some (cut t v)
  unfolding number build_const
  number-build_const t v = ap some (cut-cut t v)

  -- What a constant holds, by its view.
  pub view_number :
      (n : Node) (x : ℕ) → checked n ≡ true → as_konst n ≡ some x → number floats leaves n ≡ some x
  unfolding number
  view_number n x k p =
      let e = as_konst-eq n x p in
      rw e (ap some (checked-konst (node_type n) x (subst (λ m. checked m ≡ true) e k)))

  -- The value `n` is `x` where the condition holds, and `y` where not.
  pub record Chooses (n c : Node) (x y : ℕ) : Type 0 where
    pub choice :
        (z : ℕ)
        → number floats leaves c ≡ some z
        → number floats leaves n ≡ some (if z == 0 then y else x)

  pub konst-Chooses :
      (t : IrType) (v : ℕ) (c : Node) → checked (konst t v) ≡ true → Chooses (konst t v) c v v
  unfolding number
  konst-Chooses t v c h = record {
    choice = λ z e.
        if_cases (λ w. some (cut t v) ≡ some w) (z == 0) v v (λ _. ap some (checked-konst t v h))
          (λ _. ap some (checked-konst t v h));
  }

  pub select-Chooses :
      (n : Node) (s : ConstSelect)
      → IsConstSelect n s
      → checked n ≡ true
      → Chooses n s.cond s.true_const s.false_const
  unfolding number
  select-Chooses n s h k =
      let j = checked-select _ _ _ (subst (λ m. checked m ≡ true) h.shape k) in
      record {
        choice = λ z e.
            rw (h.shape, e)
              (if_cases (λ w. w ≡ some (if z == 0 then s.false_const else s.true_const)) (z == 0) _
                _ (λ p. rw p (ap some (checked-konst _ _ j.right)))
                (λ p. rw p (ap some (checked-konst _ _ j.left))));
      }

  -- What a select between constants holds is decided by its condition.
  pub cond_number :
      (n : Node) (s : ConstSelect) (v : ℕ)
      → IsConstSelect n s
      → number floats leaves n ≡ some v
      → (z : ℕ) × (number floats leaves s.cond ≡ some z)
  unfolding number
  cond_number n s v h e =
      let (z, p, q) = >>=-eq-some (number floats leaves s.cond) _ (rw h.shape at e) in (z, p)

  -- A select between equal values.
  pub select_equal :
      (c a : Node) → checked (select c a a) ≡ true → Folded floats leaves (select c a a) a
  unfolding number node_type
  select_equal c a h =
      let k = checked-select c a a h in
      record {
        typed = refl;
        checks = k.left;
        same_number = λ v e.
            let (z, p, q) = >>=-eq-some (number floats leaves c) _ e in
            if_cases (λ (w : Option ℕ). w ≡ some v → number floats leaves a ≡ some v) (z == 0) _ _
              (λ _ r. r) (λ _ r. r) q;
      }

  -- `fold_select` is right on selects between constants by the condition `c`.
  abbrev pub SelectsConsts : Folds → Node → Type 0
  SelectsConsts folds c =
      (t : IrType) (x y : ℕ)
      → checked (select c (konst t x) (konst t y)) ≡ true
      → Folds-to floats leaves (select c (konst t x) (konst t y))
          (folds.select_ c (konst t x) (konst t y))

  pub fold_select_consts-Folds :
      (same : Node → Node → Bool) (folds : Folds) (c : Node) (t : IrType) (x y : ℕ)
      → SelectsConsts folds c
      → checked (select c (build_const t x) (build_const t y)) ≡ true
      → Folds-to floats leaves
          (select c (build_const t x) (build_const t y))
          (fold_select_consts same folds c t x y)
  unfolding fold_select_consts build_const
  fold_select_consts-Folds same folds c t x y h k =
      let N = select c (konst t (cut t x)) (konst t (cut t y)) in
      if_cases (Folds-to floats leaves N) (cut t x == cut t y) _ _
        (λ p.
          let q = ==→eq (cut t x) (cut t y) p in
          (
            konst t (cut t (cut t x)),
            refl,
            rw (cut-cut t x) (
                subst
                  (λ w.
                    Folded floats leaves (select c (konst t (cut t x)) (konst t w))
                      (konst t (cut t x)))
                  q
                  (select_equal c (konst t (cut t x)) (
                    subst (λ w. checked (select c (konst t (cut t x)) (konst t w)) ≡ true) (sym q)
                      k))),
          ))
        (λ p. rw (cut-cut t x, cut-cut t y) (h t (cut t x) (cut t y) k))
