-- ===== src/Folding/Equality.antt =====
-- The numbers that `fold_eq` and `fold_lt_u` of `Builder` (jitir.tmpl.hpp) compare.

use metajit_cpp.Types.{bool, type_mask}
use metajit_cpp.Ir.{xor_inst}
use metajit_cpp.Folding.{Node, binary}
use metajit_cpp.Folding.Operands.{Fits, cut}
use metajit_cpp.Base.{ℕ, true, some, ◌≡◌, refl, ap, ◌∙◌, some_eq, bit_xor, ◌==◌, ==→eq}
use metajit_cpp.Base.{Bool-cases, inl, inr, false}
use metajit_cpp.Types.{type_width}
use metajit_cpp.Folding.Compare.{as_xor}
use metajit_cpp.Folding.Totals.{eq_number, lt_number}
use metajit_cpp.Folding.Modular.{xor-eq-zero, xor_self}
use metajit_cpp.Base.{zero, suc, inl, inr, Bool-cases, arith, false, eq→==}

pub eq_number_comm : (x y : ℕ) → eq_number x y ≡ eq_number y x
eq_number_comm x y = ground arith

pub eq_number-zero : (w : ℕ) → Fits bool w → cut bool (eq_number w 0) ≡ bit_xor w 1
unfolding type_width type_mask
eq_number-zero zero f = refl
eq_number-zero (suc zero) f = refl
eq_number-zero (suc (suc w)) f = absurd (omega arith)

pub eq_number-one :
    (w v : ℕ) → Fits bool w → Fits bool v → (v == 0) ≡ false → cut bool (eq_number w v) ≡ w
unfolding type_width type_mask
eq_number-one w zero f g h = cc
eq_number-one zero (suc zero) f g h = refl
eq_number-one (suc zero) (suc zero) f g h = refl
eq_number-one (suc (suc w)) v f g h = absurd (omega arith)
eq_number-one w (suc (suc v)) f g h = absurd (omega arith)

pub eq_number-xor : (x y : ℕ) → eq_number (bit_xor x y) 0 ≡ eq_number x y
eq_number-xor x y = elim (Bool-cases (x == y)) [
  | inl h ↦
      let e = ==→eq x y h in
      let f : (bit_xor x y == 0) ≡ true = eq→== _ _ (ap (λ i. bit_xor i y) e ∙ xor_self y) in
      rw (h, f) refl
  | inr h ↦ elim (Bool-cases (bit_xor x y == 0)) [
    | inl k ↦ let e : (x == y) ≡ true = eq→== x y (xor-eq-zero x y (==→eq _ _ k)) in cc
    | inr k ↦ rw (h, k) refl
  ]
]

pub lt_number-zero : (x : ℕ) → lt_number x 0 ≡ 0
lt_number-zero x = ground arith

pub as_xor-eq : (a x y : Node) → as_xor a ≡ some (x, y) → a ≡ binary xor_inst x y
unfolding as_xor
as_xor-eq (binary xor_inst p q) x y h =
    let e : (p, q) ≡ (x, y) = some_eq h in ap (λ (t : Node × Node). binary xor_inst t.0 t.1) e
as_xor-eq _ x y h = cc

pub bool_mask : type_mask bool ≡ 1
unfolding type_mask
bool_mask = refl

pub one_cut : cut bool 1 ≡ 1
unfolding type_mask
one_cut = refl
