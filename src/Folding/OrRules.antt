-- ===== src/Folding/OrRules.antt =====
-- The single rules of `fold_or` and `fold_xor` (jitir.tmpl.hpp) against the interpreter.
use mathlib.Core.Path.{subst}
use metajit_cpp.Types.{IrType, type_mask}
use metajit_cpp.Ir.{and_inst, or_inst, xor_inst}
use metajit_cpp.Ir.Checks.{binary_checks, binary_type}
use metajit_cpp.Interpreter.Eval as IE
use metajit_cpp.Soundness.Operators.{masked_self}
use metajit_cpp.Word.Mask.{or-lt}
use metajit_cpp.Word.Laws.{or_self, or-zero, xor-zero, xor-xor, or-and-or}
use metajit_cpp.Folding.{Node, konst, binary, node_type, checked, build_const}
use metajit_cpp.Folding.Bits.{or-mask}
use metajit_cpp.Folding.Checked.{checked-binary, binary-checked}
use metajit_cpp.Folding.Numbers.{number, Folded}
use metajit_cpp.Folding.Operands.{Fits}
use metajit_cpp.Folding.ConstProp.{build_const-checked, build_const-type, number-build_const}
use metajit_cpp.Base.{
  ℕ, true, Option, some, ◌≡◌, refl, sym, ap, ap₂, ◌∙◌, some_eq, bit_and, bit_or, bit_xor,
}
use metajit_cpp.Folding.Rules.{
  and-IsBitwise, or-IsBitwise, xor-IsBitwise, Pieces, konst_number, bitwise_types, pieces,
  bitwise_applied, bitwise_rule,
}

module _ (floats : IE.FloatUnit) (leaves : ℕ → IrType → Option ℕ)
    (leaves-Fit : (n : ℕ) (t : IrType) (v : ℕ) → leaves n t ≡ some v → Fits t v) (a b : Node)
    (c : checked (binary or_inst a b) ≡ true) where
  or_rule :
      (y : Node)
      → node_type y ≡ node_type a
      → checked y ≡ true
      → ((v : ℕ) → Pieces floats leaves bit_or a b v → number floats leaves y ≡ some v)
      → Folded floats leaves (binary or_inst a b) y
  or_rule y = bitwise_rule floats leaves leaves-Fit or_inst bit_or (or-IsBitwise floats) a b y c

  pub or-same_rule : a ≡ b → Folded floats leaves (binary or_inst a b) a
  or-same_rule e = or_rule a refl (checked-binary or_inst a b c).left (λ v p.
      let s : p.left ≡ p.right =
        some_eq (sym p.at_left ∙ ap (number floats leaves) e ∙ p.at_right) in
      p.at_left ∙ ap some (sym (p.result ∙ ap (bit_or p.left) (sym s) ∙ or_self p.left)))

  pub or-zero_rule : number floats leaves b ≡ some 0 → Folded floats leaves (binary or_inst a b) a
  or-zero_rule e = or_rule a refl (checked-binary or_inst a b c).left (λ v p.
      let s : p.right ≡ 0 = some_eq (sym p.at_right ∙ e) in
      p.at_left ∙ ap some (sym (p.result ∙ ap (bit_or p.left) s ∙ or-zero p.left)))

  pub or-mask_rule :
      number floats leaves b ≡ some (type_mask (node_type a))
      → Folded floats leaves (binary or_inst a b) b
  or-mask_rule e =
      or_rule b
        (sym (bitwise_types floats leaves leaves-Fit or_inst bit_or (or-IsBitwise floats) a b c))
        (checked-binary or_inst a b c).right
        (λ v p.
          let s : p.right ≡ type_mask (node_type a) = some_eq (sym p.at_right ∙ e) in
          e
          ∙ ap some
              (sym (p.result ∙ ap (bit_or p.left) s ∙ or-mask (node_type a) p.left p.left-Fits)))

  -- `(x & m) | (x & n)`
  pub or-and_rule :
      (x : Node) (t u : IrType) (m n : ℕ)
      → a ≡ binary and_inst x (konst t m)
      → b ≡ binary and_inst x (konst u n)
      → Folded floats leaves
          (binary or_inst a b)
          (binary and_inst x (build_const (node_type a) (bit_or m n)))
  unfolding node_type binary_type
  or-and_rule x t u m n e d =
      let w = bit_or m n in
      let k = checked-binary or_inst a b c in
      let j = subst (λ i. checked i ≡ true) e k.left in
      let j' = subst (λ i. checked i ≡ true) d k.right in
      let h = checked-binary and_inst x (konst t m) j in
      let T : node_type a ≡ node_type x = ap node_type e in
      let tx : node_type x ≡ t =
        bitwise_types floats leaves leaves-Fit and_inst bit_and (and-IsBitwise floats) x (konst t m)
          j in
      or_rule (binary and_inst x (build_const (node_type a) w)) (sym T)
        (binary-checked and_inst x (build_const (node_type a) w) record {
          of_types =
              subst (λ i. binary_checks and_inst (node_type x) i ≡ true)
                (sym tx ∙ sym T ∙ sym (build_const-type (node_type a) w)) h.of_types;
          left = h.left;
          right = build_const-checked (node_type a) w;
        })
        (λ v p.
          let q =
            pieces floats leaves leaves-Fit and_inst bit_and (and-IsBitwise floats) x (konst t m)
              p.left j (ap (number floats leaves) (sym e) ∙ p.at_left) in
          let r =
            pieces floats leaves leaves-Fit and_inst bit_and (and-IsBitwise floats) x (konst u n)
              p.right j' (ap (number floats leaves) (sym d) ∙ p.at_right) in
          let f : q.right ≡ m =
            some_eq (sym q.at_right ∙ konst_number floats leaves leaves-Fit t m q.right_checks) in
          let g : r.right ≡ n =
            some_eq (sym r.at_right ∙ konst_number floats leaves leaves-Fit u n r.right_checks) in
          let i : r.left ≡ q.left = some_eq (sym r.at_left ∙ q.at_left) in
          let fits : Fits (node_type x) w =
            or-lt _ m n (rw (sym f) q.right-Fits) (rw (sym g) r.right-Fits) in
          bitwise_applied floats leaves leaves-Fit and_inst bit_and (and-IsBitwise floats) x
            (build_const (node_type a) w) q.left w (sym T ∙ sym (build_const-type (node_type a) w))
            q.at_left
            (number-build_const floats leaves (node_type a) w
              ∙ ap some (rw T (masked_self (node_type x) w fits)))
            q.left-Fits fits
          ∙ ap some (
              sym (
                p.result
                ∙ ap₂ bit_or (q.result ∙ ap (bit_and q.left) f) (r.result ∙ ap₂ bit_and i g)
                ∙ or-and-or q.left m n)))

module _ (floats : IE.FloatUnit) (leaves : ℕ → IrType → Option ℕ)
    (leaves-Fit : (n : ℕ) (t : IrType) (v : ℕ) → leaves n t ≡ some v → Fits t v) (a b : Node)
    (c : checked (binary xor_inst a b) ≡ true) where
  xor_rule :
      (y : Node)
      → node_type y ≡ node_type a
      → checked y ≡ true
      → ((v : ℕ) → Pieces floats leaves bit_xor a b v → number floats leaves y ≡ some v)
      → Folded floats leaves (binary xor_inst a b) y
  xor_rule y = bitwise_rule floats leaves leaves-Fit xor_inst bit_xor (xor-IsBitwise floats) a b y c

  pub xor-zero_rule : number floats leaves b ≡ some 0 → Folded floats leaves (binary xor_inst a b) a
  xor-zero_rule e = xor_rule a refl (checked-binary xor_inst a b c).left (λ v p.
      let s : p.right ≡ 0 = some_eq (sym p.at_right ∙ e) in
      p.at_left ∙ ap some (sym (p.result ∙ ap (bit_xor p.left) s ∙ xor-zero p.left)))

  -- `(x ^ m) ^ m`
  pub xor-xor_rule :
      (x : Node) (t : IrType) (m : ℕ)
      → a ≡ binary xor_inst x (konst t m)
      → number floats leaves b ≡ some m
      → Folded floats leaves (binary xor_inst a b) x
  unfolding node_type binary_type
  xor-xor_rule x t m e d =
      let k = checked-binary xor_inst a b c in
      let j = subst (λ i. checked i ≡ true) e k.left in
      xor_rule x (sym (ap node_type e)) (checked-binary xor_inst x (konst t m) j).left (λ v p.
        let q =
          pieces floats leaves leaves-Fit xor_inst bit_xor (xor-IsBitwise floats) x (konst t m)
            p.left j (ap (number floats leaves) (sym e) ∙ p.at_left) in
        let f : q.right ≡ m =
          some_eq (sym q.at_right ∙ konst_number floats leaves leaves-Fit t m q.right_checks) in
        let g : p.right ≡ m = some_eq (sym p.at_right ∙ d) in
        q.at_left
        ∙ ap some
            (sym (p.result ∙ ap₂ bit_xor (q.result ∙ ap (bit_xor q.left) f) g ∙ xor-xor q.left m)))
