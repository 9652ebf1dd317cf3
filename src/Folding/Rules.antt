-- ===== src/Folding/Rules.antt =====
-- The single rules of `fold_and`, `fold_or` and `fold_xor` (jitir.tmpl.hpp) against the interpreter.
use mathlib.Core.Path.{subst}
use metajit_cpp.Types.{IrType}
use metajit_cpp.Ir.{BinOp, and_inst, or_inst, xor_inst}
use metajit_cpp.Ir.Checks.{binary_checks, binary_type}
use metajit_cpp.Interpreter.Eval as IE
use metajit_cpp.Soundness.Operators.{masked_self}
use metajit_cpp.Word.Mask.{and-lt_left, or-lt, xor-lt}
use metajit_cpp.Folding.{Node, konst, binary, node_type, checked}
use metajit_cpp.Folding.Checked.{checked-binary, binary-checked, checked-konst}
use metajit_cpp.Folding.Numbers.{number, Folded}
use metajit_cpp.Folding.Operands.{Fits, cut, IsTotal, operands, applied}
use metajit_cpp.Folding.Totals.{and-IsTotal, or-IsTotal, xor-IsTotal}
use metajit_cpp.Base.{ℕ, true, Option, some, ◌≡◌, refl, sym, ap, ap₂, ◌∙◌, bit_and, bit_or, bit_xor}

-- An operator on the single bits.
pub record IsBitwise (floats : IE.FloatUnit) (o : BinOp) (g : ℕ → ℕ → ℕ) : Type 0 where
  pub total : IsTotal floats o g
  pub own_type : (t : IrType) → binary_type o t ≡ t
  pub inside : (t : IrType) (x y : ℕ) → Fits t x → Fits t y → Fits t (g x y)

pub and-IsBitwise : (floats : IE.FloatUnit) → IsBitwise floats and_inst bit_and
unfolding binary_type
and-IsBitwise floats = record {
  total = and-IsTotal floats;
  own_type = λ t. refl;
  inside = λ t x y p q. and-lt_left _ x y p;
}

pub or-IsBitwise : (floats : IE.FloatUnit) → IsBitwise floats or_inst bit_or
unfolding binary_type
or-IsBitwise floats = record {
  total = or-IsTotal floats;
  own_type = λ t. refl;
  inside = λ t x y p q. or-lt _ x y p q;
}

pub xor-IsBitwise : (floats : IE.FloatUnit) → IsBitwise floats xor_inst bit_xor
unfolding binary_type
xor-IsBitwise floats = record {
  total = xor-IsTotal floats;
  own_type = λ t. refl;
  inside = λ t x y p q. xor-lt _ x y p q;
}

-- The operands of a node of a bitwise operator that holds the number `v`.
pub record Pieces (floats : IE.FloatUnit) (leaves : ℕ → IrType → Option ℕ) (g : ℕ → ℕ → ℕ)
    (a b : Node) (v : ℕ) : Type 0 where
  pub left : ℕ
  pub right : ℕ
  pub at_left : number floats leaves a ≡ some left
  pub at_right : number floats leaves b ≡ some right
  pub left-Fits : Fits (node_type a) left
  pub right-Fits : Fits (node_type a) right
  pub result : v ≡ g left right
  pub types : node_type a ≡ node_type b
  pub left_checks : checked a ≡ true
  pub right_checks : checked b ≡ true

module _ (floats : IE.FloatUnit) (leaves : ℕ → IrType → Option ℕ)
    (leaves-Fit : (n : ℕ) (t : IrType) (v : ℕ) → leaves n t ≡ some v → Fits t v) where
  -- A rule for an operator, by what it does to numbers of the type.
  pub total_rule :
      (o : BinOp) (g : ℕ → ℕ → ℕ)
      → IsTotal floats o g
      → (a b y : Node) → checked (binary o a b) ≡ true
      → node_type y ≡ binary_type o (node_type a)
      → checked y ≡ true
      → ((l r : ℕ)
          → number floats leaves a ≡ some l
          → number floats leaves b ≡ some r
          → Fits (node_type a) l
          → Fits (node_type a) r
          → number floats leaves y ≡ some (cut (binary_type o (node_type a)) (g l r)))
      → Folded floats leaves (binary o a b) y
  unfolding node_type
  total_rule o g total a b y c t k h = record {
    typed = t;
    checks = k;
    same_number = λ v e.
        let s = operands floats leaves leaves-Fit o g total a b v c e in
        h s.left s.right s.at_left s.at_right s.left-Fits s.right-Fits ∙ ap some (sym s.result);
  }

  -- The swap of the operands.
  pub commuted :
      (o : BinOp) (g : ℕ → ℕ → ℕ)
      → IsTotal floats o g
      → ((x y : ℕ) → g x y ≡ g y x)
      → (a b : Node) → checked (binary o a b) ≡ true
      → Folded floats leaves (binary o a b) (binary o b a)
  unfolding node_type
  commuted o g total comm a b c =
      let k = checked-binary o a b c in
      let t = total.same_types (node_type a) (node_type b) k.of_types in
      total_rule o g total a b (binary o b a) c (rw t refl)
        (binary-checked o b a record {
          of_types =
              subst (λ u. binary_checks o u (node_type a) ≡ true) t
                (subst (λ u. binary_checks o (node_type a) u ≡ true) (sym t) k.of_types);
          left = k.right;
          right = k.left;
        })
        (λ l r p q f h.
          applied floats leaves leaves-Fit o g total b a r l (sym t) q p (rw (sym t) h)
            (rw (sym t) f)
          ∙ ap some (ap₂ cut (ap (binary_type o) (sym t)) (comm r l)))

  -- What a constant holds.
  pub konst_number :
      (t : IrType) (v : ℕ) → checked (konst t v) ≡ true → number floats leaves (konst t v) ≡ some v
  unfolding number
  konst_number t v h = ap some (checked-konst t v h)

  module _ (o : BinOp) (g : ℕ → ℕ → ℕ) (bitwise : IsBitwise floats o g) (a b : Node) where
    pub bitwise_types : checked (binary o a b) ≡ true → node_type a ≡ node_type b
    bitwise_types c =
        bitwise.total.same_types (node_type a) (node_type b) (checked-binary o a b c).of_types

    pub pieces :
        (v : ℕ)
        → checked (binary o a b) ≡ true
        → number floats leaves (binary o a b) ≡ some v
        → Pieces floats leaves g a b v
    pieces v c e =
        let s = operands floats leaves leaves-Fit o g bitwise.total a b v c e in
        let k = checked-binary o a b c in
        record {
          left = s.left;
          right = s.right;
          at_left = s.at_left;
          at_right = s.at_right;
          left-Fits = s.left-Fits;
          right-Fits = s.right-Fits;
          result =
              s.result
              ∙ ap (λ t. cut t (g s.left s.right)) (bitwise.own_type (node_type a))
              ∙ masked_self (node_type a) (g s.left s.right)
                  (bitwise.inside (node_type a) s.left s.right s.left-Fits s.right-Fits);
          types = bitwise_types c;
          left_checks = k.left;
          right_checks = k.right;
        }

    pub bitwise_applied :
        (x y : ℕ)
        → node_type a ≡ node_type b
        → number floats leaves a ≡ some x
        → number floats leaves b ≡ some y
        → Fits (node_type a) x
        → Fits (node_type a) y
        → number floats leaves (binary o a b) ≡ some (g x y)
    bitwise_applied x y t e f p q =
        applied floats leaves leaves-Fit o g bitwise.total a b x y t e f p q
        ∙ ap some (
            ap (λ u. cut u (g x y)) (bitwise.own_type (node_type a))
            ∙ masked_self (node_type a) (g x y) (bitwise.inside (node_type a) x y p q))

    -- A rule, by what it does to the numbers.
    pub bitwise_rule :
        (y : Node)
        → checked (binary o a b) ≡ true
        → node_type y ≡ node_type a
        → checked y ≡ true
        → ((v : ℕ) → Pieces floats leaves g a b v → number floats leaves y ≡ some v)
        → Folded floats leaves (binary o a b) y
    unfolding node_type
    bitwise_rule y c t k h = record {
      typed = t ∙ sym (bitwise.own_type (node_type a));
      checks = k;
      same_number = λ v e. h v (pieces v c e);
    }
