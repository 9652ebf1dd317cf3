-- ===== src/Folding/BoolRules.antt =====
-- The rules of `fold_select` (jitir.tmpl.hpp) for an inverted condition and for two Boolean constants.
use mathlib.Core.Path.{subst}
use metajit_cpp.Types.{IrType, bool, type_mask, type_width}
use metajit_cpp.Ir.{xor_inst}
use metajit_cpp.Ir.Checks.{binary_checks, binary_type}
use metajit_cpp.Interpreter.Eval as IE
use metajit_cpp.Folding.{Node, konst, binary, node_type, checked, build_const}
use metajit_cpp.Folding.Checked.{checked-binary, binary-checked}
use metajit_cpp.Folding.Numbers.{number, Folded}
use metajit_cpp.Folding.Operands.{Fits, cut, number-Fits}
use metajit_cpp.Folding.ConstProp.{build_const-checked, build_const-type, number-build_const}
use metajit_cpp.Base.{
  ℕ, zero, suc, true, Option, some, ◌≡◌, refl, sym, ap, ◌∙◌, some_eq, bit_xor, ◌==◌, ==→eq, arith,
}
use metajit_cpp.Folding.Rules.{xor-IsBitwise, konst_number, pieces, bitwise_applied}
use metajit_cpp.Folding.{select}
use metajit_cpp.Folding.Checked.{checked-select, select-checked}
use metajit_cpp.Base.{if◌then◌else◌, Bool-cases, inl, inr, >>=-eq-some, false}

pub bool_mask : type_mask bool ≡ 1
unfolding type_mask
bool_mask = refl

one_cut : cut bool 1 ≡ 1
unfolding type_mask
one_cut = refl

one-Fits : Fits bool 1
unfolding type_width
one-Fits = omega arith

pub one_bit : (w : ℕ) → Fits bool w → (w == 0) ≡ false → w ≡ 1
unfolding type_width
one_bit w f h = ground arith

-- A Boolean is 0 or 1.
pub flipped : (w x : ℕ) → Fits bool x → w ≡ bit_xor x 1 → (w == 0) ≡ true → x ≡ 1
unfolding type_width
flipped w zero f e h = cc
flipped w (suc zero) f e h = refl
flipped w (suc (suc x)) f e h = absurd (omega arith)

pub unflipped : (w x : ℕ) → Fits bool x → w ≡ bit_xor x 1 → (w == 0) ≡ false → x ≡ 0
unfolding type_width
unflipped w zero f e h = refl
unflipped w (suc zero) f e h = cc
unflipped w (suc (suc x)) f e h = absurd (omega arith)

module _ (floats : IE.FloatUnit) (leaves : ℕ → IrType → Option ℕ)
    (leaves-Fit : (n : ℕ) (t : IrType) (v : ℕ) → leaves n t ≡ some v → Fits t v) (z a b : Node)
    (c : checked (select z a b) ≡ true) where
  -- `!x ? a : b`
  pub not_rule :
      (x : Node) (t : IrType)
      → z ≡ binary xor_inst x (konst t (type_mask (node_type x)))
      → Folded floats leaves (select z a b) (select x b a)
  unfolding number node_type binary_type
  not_rule x t e =
      let m = type_mask (node_type x) in
      let j = checked-select z a b c in
      let k = subst (λ i. checked i ≡ true) e j.cond in
      let tx : node_type x ≡ bool = sym (ap node_type e) ∙ j.of_cond in
      record {
        typed = sym j.of_arms;
        checks = select-checked x b a record {
          of_cond = tx;
          of_arms = sym j.of_arms;
          cond = (checked-binary xor_inst x (konst t m) k).left;
          left = j.right;
          right = j.left;
        };
        same_number = λ v d.
            let (w, p, q) = >>=-eq-some (number floats leaves z) _ d in
            let r =
              pieces floats leaves leaves-Fit xor_inst bit_xor (xor-IsBitwise floats) x (konst t m)
                w k (ap (number floats leaves) (sym e) ∙ p) in
            let f : r.right ≡ 1 =
              some_eq (sym r.at_right ∙ konst_number floats leaves leaves-Fit t m r.right_checks)
              ∙ ap type_mask tx
              ∙ bool_mask in
            let g : w ≡ bit_xor r.left 1 = r.result ∙ ap (bit_xor r.left) f in
            let l : Fits bool r.left = rw tx at r.left-Fits in
            elim (Bool-cases (w == 0)) [
              | inl h ↦ let n = flipped w r.left l g h in rw (r.at_left, n) (rw h at q)
              | inr h ↦ let n = unflipped w r.left l g h in rw (r.at_left, n) (rw h at q)
            ];
      }

  module _ (t u : IrType) (m n : ℕ) (ea : a ≡ konst t m) (eb : b ≡ konst u n)
      (of_bool : node_type a ≡ bool) where
    arms :
        (w v : ℕ)
        → (if w == 0 then number floats leaves b else number floats leaves a) ≡ some v
        → (if w == 0 then n else m) ≡ v
    arms w v q =
        let j = checked-select z a b c in
        let f : number floats leaves a ≡ some m =
          ap (number floats leaves) ea
          ∙ konst_number floats leaves leaves-Fit t m (subst (λ i. checked i ≡ true) ea j.left) in
        let g : number floats leaves b ≡ some n =
          ap (number floats leaves) eb
          ∙ konst_number floats leaves leaves-Fit u n (subst (λ i. checked i ≡ true) eb j.right) in
        elim (Bool-cases (w == 0)) [
          | inl h ↦ rw h (some_eq (sym g ∙ (rw h at q)))
          | inr h ↦ rw h (some_eq (sym f ∙ (rw h at q)))
        ]

    -- `x ? 1 : 0`
    pub one_zero_rule : m ≡ 1 → n ≡ 0 → Folded floats leaves (select z a b) z
    unfolding number node_type
    one_zero_rule em en =
        let j = checked-select z a b c in
        record {
          typed = j.of_cond ∙ sym of_bool;
          checks = j.cond;
          same_number = λ v d.
              let (w, p, q) = >>=-eq-some (number floats leaves z) _ d in
              let r = arms w v q in
              let l : Fits bool w =
                rw j.of_cond at (number-Fits floats leaves leaves-Fit z w j.cond p) in
              p
              ∙ ap some (elim (Bool-cases (w == 0)) [
                | inl h ↦ ==→eq w 0 h ∙ sym en ∙ (rw h at r)
                | inr h ↦ one_bit w l h ∙ sym em ∙ (rw h at r)
              ]);
        }

    -- `x ? 0 : 1`
    pub zero_one_rule :
        m ≡ 0 → n ≡ 1 → Folded floats leaves (select z a b) (binary xor_inst z (build_const bool 1))
    unfolding number node_type
    zero_one_rule em en =
        let j = checked-select z a b c in
        let y = build_const bool 1 in
        record {
          typed = j.of_cond ∙ sym of_bool;
          checks = binary-checked xor_inst z y record {
            of_types = unfold build_const in rw j.of_cond (unfold binary_checks in refl);
            left = j.cond;
            right = build_const-checked bool 1;
          };
          same_number = λ v d.
              let (w, p, q) = >>=-eq-some (number floats leaves z) _ d in
              let r = arms w v q in
              let l : Fits (node_type z) w = number-Fits floats leaves leaves-Fit z w j.cond p in
              bitwise_applied floats leaves leaves-Fit xor_inst bit_xor (xor-IsBitwise floats) z y w
                1 (j.of_cond ∙ sym (build_const-type bool 1)) p
                (number-build_const floats leaves bool 1 ∙ ap some one_cut) l
                (rw j.of_cond one-Fits)
              ∙ ap some (elim (Bool-cases (w == 0)) [
                | inl h ↦ let f = ==→eq w 0 h in rw f (sym en ∙ (rw h at r))
                | inr h ↦ let f = one_bit w (rw j.of_cond at l) h in rw f (sym em ∙ (rw h at r))
              ]);
        }
