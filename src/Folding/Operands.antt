-- ===== src/Folding/Operands.antt =====
-- The numbers of the operands of a node (`Interpreter::Bits` in jitir.tmpl.hpp).
use mathlib.Core.Path.{subst}
use mathlib.Core.Bool.{and-eq-true_iff}
use metajit_cpp.Types.{IrType, ptr, type_mask, type_width, same_type}
use metajit_cpp.Ir.{BinOp}
use metajit_cpp.Ir.Checks.{binary_checks, binary_type}
use metajit_cpp.Interpreter as I
use metajit_cpp.Interpreter.Eval as IE
use metajit_cpp.Soundness.Typing.{IsOf, constant-IsOf, eval_binary-IsOf}
use metajit_cpp.Soundness.Eval.{resize_u-IsOf}
use metajit_cpp.Soundness.Extend.{resize_s-shape}
use metajit_cpp.Soundness.Operators.{masked_self}
use metajit_cpp.KnownBits.Contains.{and-type_mask_lt}
use metajit_cpp.Folding.{
  Node, konst, leaf, binary, select, resize_u, resize_s, resize_x, ptr_to_int, node_type, checked,
}
use metajit_cpp.Folding.Checked.{checked-select, checked-binary}
use metajit_cpp.Folding.Numbers.{unpoisoned, number}
use metajit_cpp.Base.{
  ℕ, ◌<◌, ◌^◌, Bool, true, false, Option, none, some, ◌≡◌, refl, sym, ◌∙◌, ◌>>=◌, >>=-eq-some, ◌==◌,
  some_eq, bit_and, if◌then◌else◌, Bool-cases, inl, inr,
}

-- `v` is a number of the type.
abbrev pub Fits : IrType → ℕ → Type 0
Fits t v = v < 2 ^ type_width t

-- `v` cut to the type.
abbrev pub cut : IrType → ℕ → ℕ
cut t v = bit_and v (type_mask t)

pub cut-Fits : (t : IrType) (v : ℕ) → Fits t (cut t v)
cut-Fits t v = and-type_mask_lt t v

unpoisoned-Fits : (t : IrType) (r : I.Bits) (v : ℕ) → IsOf t r → unpoisoned r ≡ some v → Fits t v
unfolding unpoisoned
unpoisoned-Fits t r v h e = either r.is_poison e
  where
    either : (p : Bool) → (if p then none else some r.value) ≡ some v → Fits t v
    either true f = cc
    either false f = rw (sym (some_eq f), sym h.ty) h.range

ptr_to_int-IsOf : (t : IrType) (x r : I.Bits) → I.ptr_to_int x t ≡ some r → IsOf t r
unfolding I.ptr_to_int
ptr_to_int-IsOf t x r e = either (same_type x.ty ptr) e
  where
    either : (p : Bool) → (if p then some (I.constant t x.value) else none) ≡ some r → IsOf t r
    either true f = subst (IsOf t) (some_eq f) (constant-IsOf t x.value)
    either false f = cc

module _ (floats : IE.FloatUnit) (leaves : ℕ → IrType → Option ℕ)
    (leaves-Fit : (n : ℕ) (t : IrType) (v : ℕ) → leaves n t ≡ some v → Fits t v) where
  -- A number is one of the node's type.
  pub number-Fits :
      (n : Node) (v : ℕ) → checked n ≡ true → number floats leaves n ≡ some v → Fits (node_type n) v
  unfolding number node_type checked I.constant
  number-Fits (konst t w) v c e = subst (Fits t) (some_eq e) (cut-Fits t w)
  number-Fits (leaf n t) v c e = leaves-Fit n t v e
  number-Fits (binary o a b) v c e =
      let (p, q) = (and-eq-true_iff _ _).0 c in
      let (x, ex, e1) = >>=-eq-some (number floats leaves a) _ e in
      let (y, ey, e2) = >>=-eq-some (number floats leaves b) _ e1 in
      let (r, er, e3) =
        >>=-eq-some
          (IE.eval_binary floats o (I.constant (node_type a) x) (I.constant (node_type b) y)) _
          e2 in
      unpoisoned-Fits _ r v
        (eval_binary-IsOf (I.constant (node_type a) x) (I.constant (node_type b) y) r floats o p er)
        e3
  number-Fits (select c a b) v h e =
      let (z, ez, e1) = >>=-eq-some (number floats leaves c) _ e in
      let k = checked-select c a b h in
      elim (Bool-cases (z == 0)) [
        | inl p ↦ rw k.of_arms (number-Fits b v k.right (rw p at e1))
        | inr p ↦ number-Fits a v k.left (rw p at e1)
      ]
  number-Fits (resize_u a t) v c e =
      let (x, ex, e1) = >>=-eq-some (number floats leaves a) _ e in
      unpoisoned-Fits t _ v (resize_u-IsOf t (I.constant (node_type a) x)) e1
  number-Fits (resize_s a t) v c e =
      let (x, ex, e1) = >>=-eq-some (number floats leaves a) _ e in
      let (r, er, e2) = >>=-eq-some (I.resize_s (I.constant (node_type a) x) t) _ e1 in
      let (p, q) = resize_s-shape (I.constant (node_type a) x) t r er in
      unpoisoned-Fits t r v (record { ty = p; range = q }) e2
  number-Fits (resize_x a t) v c e =
      let (x, ex, e1) = >>=-eq-some (number floats leaves a) _ e in
      unpoisoned-Fits t _ v (resize_u-IsOf t (I.constant (node_type a) x)) (unfold I.resize_x in e1)
  number-Fits (ptr_to_int a t) v c e =
      let (x, ex, e1) = >>=-eq-some (number floats leaves a) _ e in
      let (r, er, e2) = >>=-eq-some (I.ptr_to_int (I.constant (node_type a) x) t) _ e1 in
      unpoisoned-Fits t r v (ptr_to_int-IsOf t (I.constant (node_type a) x) r er) e2

-- An operator on numbers that always has a result, `g` cut to its type.
pub record IsTotal (floats : IE.FloatUnit) (o : BinOp) (g : ℕ → ℕ → ℕ) : Type 0 where
  pub runs :
      (t : IrType) (x y : ℕ)
      → (IE.eval_binary floats o (I.constant t x) (I.constant t y) >>= unpoisoned)
        ≡ some (cut (binary_type o t) (g (cut t x) (cut t y)))
  pub same_types : (t u : IrType) → binary_checks o t u ≡ true → t ≡ u

-- The operands of a node of such an operator that holds the number `v`.
pub record Operands (floats : IE.FloatUnit) (leaves : ℕ → IrType → Option ℕ) (o : BinOp)
    (g : ℕ → ℕ → ℕ) (a b : Node) (v : ℕ) : Type 0 where
  pub left : ℕ
  pub right : ℕ
  pub at_left : number floats leaves a ≡ some left
  pub at_right : number floats leaves b ≡ some right
  pub left-Fits : Fits (node_type a) left
  pub right-Fits : Fits (node_type a) right
  pub result : v ≡ cut (binary_type o (node_type a)) (g left right)

module _ (floats : IE.FloatUnit) (leaves : ℕ → IrType → Option ℕ)
    (leaves-Fit : (n : ℕ) (t : IrType) (v : ℕ) → leaves n t ≡ some v → Fits t v) (o : BinOp)
    (g : ℕ → ℕ → ℕ) (total : IsTotal floats o g) (a b : Node) where
  pub applied :
      (x y : ℕ)
      → node_type a ≡ node_type b
      → number floats leaves a ≡ some x
      → number floats leaves b ≡ some y
      → Fits (node_type a) x
      → Fits (node_type a) y
      → number floats leaves (binary o a b) ≡ some (cut (binary_type o (node_type a)) (g x y))
  unfolding number
  applied x y t e f p q =
      rw (e, f, sym t)
        (total.runs (node_type a) x y
          ∙ rw (masked_self (node_type a) x p, masked_self (node_type a) y q) refl)

  pub operands :
      (v : ℕ)
      → checked (binary o a b) ≡ true
      → number floats leaves (binary o a b) ≡ some v
      → Operands floats leaves o g a b v
  unfolding number
  operands v c e =
      let k = checked-binary o a b c in
      let t = total.same_types (node_type a) (node_type b) k.of_types in
      let (x, ex, e1) = >>=-eq-some (number floats leaves a) _ e in
      let (y, ey, e2) = >>=-eq-some (number floats leaves b) _ e1 in
      let p = number-Fits floats leaves leaves-Fit a x k.left ex in
      let q : Fits (node_type a) y = rw t (number-Fits floats leaves leaves-Fit b y k.right ey) in
      record {
        left = x;
        right = y;
        at_left = ex;
        at_right = ey;
        left-Fits = p;
        right-Fits = q;
        result = some_eq (sym e ∙ applied x y t ex ey p q);
      }
