-- ===== src/Folding/Numbers.antt =====
-- The number that a node holds where the interpreter (`Interpreter::step` in jitir.tmpl.hpp) gives it
-- one that is not poison, and when one node may stand for another.

use metajit_cpp.Types.{IrType, type_mask}
use metajit_cpp.Interpreter as I
use metajit_cpp.Interpreter.Eval as IE
use metajit_cpp.Folding.{
  Node, konst, leaf, binary, select, resize_u, resize_s, resize_x, ptr_to_int, node_type, checked,
}
use metajit_cpp.Base.{
  ℕ, true, Option, none, some, ◌≡◌, refl, ◌∙◌, ◌>>=◌, ◌==◌, bit_and, if◌then◌else◌,
}

unfoldable pub unpoisoned : I.Bits → Option ℕ
unpoisoned r = if r.is_poison then none else some r.value

module _ (floats : IE.FloatUnit) (leaves : ℕ → IrType → Option ℕ) where
  -- `none` is poison or undefined behaviour. A select has the poison of the arm that it picks.
  unfoldable pub number : Node → Option ℕ
  unfolding unpoisoned node_type I.constant IE.eval_binary I.resize_u I.resize_s I.resize_x
      I.ptr_to_int
  number (konst t v) = some (bit_and v (type_mask t))
  number (leaf n t) = leaves n t
  number (binary o a b) = do
    x ← number a
    y ← number b
    r ← IE.eval_binary floats o (I.constant (node_type a) x) (I.constant (node_type b) y)
    unpoisoned r
  number (select c a b) =
      let x = number a in let y = number b in do z ← number c; if z == 0 then y else x
  number (resize_u a t) = do x ← number a; unpoisoned (I.resize_u (I.constant (node_type a) x) t)
  number (resize_s a t) = do
    x ← number a
    r ← I.resize_s (I.constant (node_type a) x) t
    unpoisoned r
  number (resize_x a t) = do x ← number a; unpoisoned (I.resize_x (I.constant (node_type a) x) t)
  number (ptr_to_int a t) = do
    x ← number a
    r ← I.ptr_to_int (I.constant (node_type a) x) t
    unpoisoned r

  -- `y` may stand for `x`.
  pub record Folded (x y : Node) : Type 0 where
    pub typed : node_type y ≡ node_type x
    pub checks : checked y ≡ true
    pub same_number : (v : ℕ) → number x ≡ some v → number y ≡ some v

  pub Folded-refl : (x : Node) → checked x ≡ true → Folded x x
  Folded-refl x h = record { typed = refl; checks = h; same_number = λ v e. e }

  pub Folded-trans : (x y z : Node) → Folded x y → Folded y z → Folded x z
  Folded-trans x y z p q = record {
    typed = q.typed ∙ p.typed;
    checks = q.checks;
    same_number = λ v e. q.same_number v (p.same_number v e);
  }

  -- A fold that gives a node that may stand for `x`.
  abbrev pub Folds-to : Node → Option Node → Type 0
  Folds-to x o = (r : Node) × (o ≡ some r) × Folded x r
