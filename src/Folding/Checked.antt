-- ===== src/Folding/Checked.antt =====
-- The parts of the assertions of a tree of values, as `Builder` (jitir.tmpl.hpp) makes them.
use mathlib.Core.Bool.{and-eq-true_iff}
use metajit_cpp.Types.{IrType, bool, type_mask, same_type}
use metajit_cpp.Ir.{BinOp}
use metajit_cpp.Ir.Checks.{binary_checks, same_type→eq}
use metajit_cpp.Folding.{Node, konst, binary, select, node_type, checked}
use metajit_cpp.Base.{ℕ, Bool, true, ◌&&◌, ◌≡◌, refl, ==→eq, eq→==, bit_and}

pub both_true : {x y : Bool} → (x && y) ≡ true → (x ≡ true) × (y ≡ true)
both_true h = (and-eq-true_iff _ _).0 h

pub and_true : {x y : Bool} → x ≡ true → y ≡ true → (x && y) ≡ true
and_true h k = (and-eq-true_iff _ _).1 (h, k)

pub same_type_refl : (t : IrType) → same_type t t ≡ true
unfolding same_type
same_type_refl t = eq→== _ _ refl

pub record BinaryChecks (o : BinOp) (a b : Node) : Type 0 where
  pub of_types : binary_checks o (node_type a) (node_type b) ≡ true
  pub left : checked a ≡ true
  pub right : checked b ≡ true

pub checked-binary : (o : BinOp) (a b : Node) → checked (binary o a b) ≡ true → BinaryChecks o a b
unfolding checked
checked-binary o a b h =
    let (p, q) = both_true h in
    let (r, s) = both_true q in record { of_types = p; left = r; right = s }

pub binary-checked : (o : BinOp) (a b : Node) → BinaryChecks o a b → checked (binary o a b) ≡ true
unfolding checked
binary-checked o a b h = and_true h.of_types (and_true h.left h.right)

pub record SelectChecks (c a b : Node) : Type 0 where
  pub of_cond : node_type c ≡ bool
  pub of_arms : node_type a ≡ node_type b
  pub cond : checked c ≡ true
  pub left : checked a ≡ true
  pub right : checked b ≡ true

pub checked-select : (c a b : Node) → checked (select c a b) ≡ true → SelectChecks c a b
unfolding checked
checked-select c a b h =
    let (p, q) = both_true h in
    let (r, s) = both_true q in
    let (t, u) = both_true s in
    let (v, w) = both_true u in
    record {
      of_cond = same_type→eq _ _ p;
      of_arms = same_type→eq _ _ r;
      cond = t;
      left = v;
      right = w;
    }

pub select-checked : (c a b : Node) → SelectChecks c a b → checked (select c a b) ≡ true
unfolding checked
select-checked c a b h = and_true (rw h.of_cond (same_type_refl bool)) (
    and_true (rw h.of_arms (same_type_refl (node_type b)))
      (and_true h.cond (and_true h.left h.right)))

pub checked-konst : (t : IrType) (v : ℕ) → checked (konst t v) ≡ true → bit_and v (type_mask t) ≡ v
unfolding checked
checked-konst t v h = ==→eq _ _ h

pub konst-checked : (t : IrType) (v : ℕ) → bit_and v (type_mask t) ≡ v → checked (konst t v) ≡ true
unfolding checked
konst-checked t v h = eq→== _ _ h
