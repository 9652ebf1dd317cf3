-- ===== src/Folding/AndRules.antt =====
-- The single rules of `fold_and` (jitir.tmpl.hpp) against the interpreter.
use mathlib.Core.Path.{subst}
use metajit_cpp.Types.{IrType, type_mask}
use metajit_cpp.Ir.{and_inst, or_inst, xor_inst}
use metajit_cpp.Ir.Checks.{binary_checks, binary_type}
use metajit_cpp.Interpreter.Eval as IE
use metajit_cpp.Soundness.Operators.{masked_self}
use metajit_cpp.Word.Bits.{bit_and-zero}
use metajit_cpp.Word.Laws.{and_self, and-or-and_disjoint}
use metajit_cpp.Folding.{Node, konst, binary, node_type, checked, build_const}
use metajit_cpp.Folding.Bits.{and-mask, and-inverted, zero-Fits}
use metajit_cpp.Folding.Checked.{checked-binary, binary-checked}
use metajit_cpp.Folding.Numbers.{number, Folded}
use metajit_cpp.Folding.Operands.{Fits}
use metajit_cpp.Folding.ConstProp.{build_const-checked, build_const-type, number-build_const}
use metajit_cpp.Base.{
  ℕ, true, Option, some, ◌≡◌, refl, sym, ap, ap₂, ◌∙◌, some_eq, bit_and, bit_or, bit_xor,
}
use metajit_cpp.Folding.Rules.{
  and-IsBitwise, or-IsBitwise, xor-IsBitwise, Pieces, konst_number, bitwise_types, pieces,
  bitwise_applied, bitwise_rule,
}

module _ (floats : IE.FloatUnit) (leaves : ℕ → IrType → Option ℕ)
    (leaves-Fit : (n : ℕ) (t : IrType) (v : ℕ) → leaves n t ≡ some v → Fits t v) (a b : Node)
    (c : checked (binary and_inst a b) ≡ true) where
  and_rule :
      (y : Node)
      → node_type y ≡ node_type a
      → checked y ≡ true
      → ((v : ℕ) → Pieces floats leaves bit_and a b v → number floats leaves y ≡ some v)
      → Folded floats leaves (binary and_inst a b) y
  and_rule y = bitwise_rule floats leaves leaves-Fit and_inst bit_and (and-IsBitwise floats) a b y c

  pub and-same_rule : a ≡ b → Folded floats leaves (binary and_inst a b) a
  and-same_rule e = and_rule a refl (checked-binary and_inst a b c).left (λ v p.
      let s : p.left ≡ p.right =
        some_eq (sym p.at_left ∙ ap (number floats leaves) e ∙ p.at_right) in
      p.at_left ∙ ap some (sym (p.result ∙ ap (bit_and p.left) (sym s) ∙ and_self p.left)))

  pub and-mask_rule :
      number floats leaves b ≡ some (type_mask (node_type a))
      → Folded floats leaves (binary and_inst a b) a
  and-mask_rule e = and_rule a refl (checked-binary and_inst a b c).left (λ v p.
      let s : p.right ≡ type_mask (node_type a) = some_eq (sym p.at_right ∙ e) in
      p.at_left
      ∙ ap some
          (sym (p.result ∙ ap (bit_and p.left) s ∙ and-mask (node_type a) p.left p.left-Fits)))

  pub and-zero_rule : number floats leaves b ≡ some 0 → Folded floats leaves (binary and_inst a b) b
  and-zero_rule e =
      and_rule b
        (sym (bitwise_types floats leaves leaves-Fit and_inst bit_and (and-IsBitwise floats) a b c))
        (checked-binary and_inst a b c).right
        (λ v p.
          let s : p.right ≡ 0 = some_eq (sym p.at_right ∙ e) in
          e ∙ ap some (sym (p.result ∙ ap (bit_and p.left) s ∙ bit_and-zero p.left)))

  -- `!b & b`
  pub and-not_rule :
      (t : IrType)
      → a ≡ binary xor_inst b (konst t (type_mask (node_type b)))
      → Folded floats leaves (binary and_inst a b) (build_const (node_type a) 0)
  and-not_rule t e =
      let m = type_mask (node_type b) in
      and_rule (build_const (node_type a) 0) (build_const-type (node_type a) 0)
        (build_const-checked (node_type a) 0)
        (λ v p.
          let q =
            pieces floats leaves leaves-Fit xor_inst bit_xor (xor-IsBitwise floats) b (konst t m)
              p.left (subst (λ n. checked n ≡ true) e p.left_checks)
              (ap (number floats leaves) (sym e) ∙ p.at_left) in
          let l : q.left ≡ p.right = some_eq (sym q.at_left ∙ p.at_right) in
          let r : q.right ≡ m =
            some_eq (sym q.at_right ∙ konst_number floats leaves leaves-Fit t m q.right_checks) in
          let z : v ≡ 0 =
            p.result
            ∙ ap (λ w. bit_and w p.right) (q.result ∙ ap₂ bit_xor l r)
            ∙ and-inverted (node_type b) p.right (rw (sym p.types) p.right-Fits) in
          number-build_const floats leaves (node_type a) 0
          ∙ ap some (masked_self (node_type a) 0 (zero-Fits (node_type a)) ∙ sym z))

  -- `(x | (y & m)) & n`
  pub and-or_rule :
      (x y : Node) (t u : IrType) (m n : ℕ)
      → a ≡ binary or_inst x (binary and_inst y (konst t m))
      → b ≡ konst u n
      → bit_and m n ≡ 0
      → Folded floats leaves (binary and_inst a b) (binary and_inst x b)
  unfolding node_type binary_type
  and-or_rule x y t u m n e d z =
      let k = checked-binary and_inst a b c in
      let j = subst (λ w. checked w ≡ true) e k.left in
      let w = binary and_inst y (konst t m) in
      and_rule (binary and_inst x b) (sym (ap node_type e))
        (binary-checked and_inst x b record {
          of_types =
              subst (λ q. binary_checks and_inst q (node_type b) ≡ true) (ap node_type e)
                k.of_types;
          left = (checked-binary or_inst x w j).left;
          right = k.right;
        })
        (λ v p.
          let q =
            pieces floats leaves leaves-Fit or_inst bit_or (or-IsBitwise floats) x w p.left j
              (ap (number floats leaves) (sym e) ∙ p.at_left) in
          let r =
            pieces floats leaves leaves-Fit and_inst bit_and (and-IsBitwise floats) y (konst t m)
              q.right q.right_checks q.at_right in
          let f : r.right ≡ m =
            some_eq (sym r.at_right ∙ konst_number floats leaves leaves-Fit t m r.right_checks) in
          let h : p.right ≡ n = some_eq (
            sym p.at_right
            ∙ ap (number floats leaves) d
            ∙ konst_number floats leaves leaves-Fit u n
                (subst (λ i. checked i ≡ true) d k.right)) in
          bitwise_applied floats leaves leaves-Fit and_inst bit_and (and-IsBitwise floats) x b
            q.left p.right (sym (ap node_type e) ∙ p.types) q.at_left p.at_right q.left-Fits
            (rw (sym (ap node_type e)) p.right-Fits)
          ∙ ap some (
              sym (
                p.result
                ∙ ap (λ i. bit_and i p.right)
                    (q.result ∙ ap (bit_or q.left) (r.result ∙ ap (bit_and r.left) f))
                ∙ ap (bit_and (bit_or q.left (bit_and r.left m))) h
                ∙ and-or-and_disjoint q.left r.left m n z
                ∙ ap (bit_and q.left) (sym h))))
