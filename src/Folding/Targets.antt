-- ===== src/Folding/Targets.antt =====
-- `fold_branch` and `fold_select` of `Builder` (jitir.tmpl.hpp) by what they pick.
use mathlib.Core.Path.{subst}
use metajit_cpp.Types.{IrType, bool, type_mask, same_type}
use metajit_cpp.Ir.{or_inst, xor_inst}
use metajit_cpp.Ir.Checks.{binary_type}
use metajit_cpp.Interpreter.Eval as IE
use metajit_cpp.Folding.{Node, konst, binary, node_type, checked}
use metajit_cpp.Folding.Numbers.{number}
use metajit_cpp.Folding.Operands.{Fits}
use metajit_cpp.Base.{
  ℕ, Bool, true, Option, none, some, ◌≡◌, refl, sym, ap, ◌∙◌, some_eq, bit_xor, ◌==◌,
}
use metajit_cpp.Folding.Rules.{xor-IsBitwise, konst_number, pieces}
use metajit_cpp.Folding.{select}
use metajit_cpp.Base.{if◌then◌else◌, Bool-cases, inl, inr, >>=-eq-some, false}
use metajit_cpp.Folding.{as_konst, leaf, select}
use metajit_cpp.Folding.Cases.{when_some_cases}
use metajit_cpp.Folding.Bitwise.{
  fold_select, folds_to, fold_select_step, select_swapped, select_bool_consts, select_bool,
  fold_or_step, or_swapped, or_masked, is_not, size, as_masked,
}
use metajit_cpp.Folding.Consts.{
  do_binop_const_prop, selects_const_prop, is_const_select, is_const_select_like,
}
use metajit_cpp.Folding.Effects.{Effect, jump, branch, fold_branch}
use metajit_cpp.Folding.AndStep.{is_not-eq}
use metajit_cpp.Folding.BoolRules.{flipped, unflipped, bool_mask}
use metajit_cpp.Folding.Rules.{pieces, xor-IsBitwise}
use metajit_cpp.Base.{◌>>=◌, >>=-eq-some, if◌then◌else◌, false, Bool-cases, inl, inr}

module _ (floats : IE.FloatUnit) (leaves : ℕ → IrType → Option ℕ) where
  -- The block that a terminator goes to.
  unfoldable pub target : Effect → Option ℕ
  unfolding number
  target (jump block) = some block
  target (branch z x y) = do w ← number floats leaves z; some (if w == 0 then y else x)
  target _ = none

  module _ (leaves-Fit : (n : ℕ) (t : IrType) (v : ℕ) → leaves n t ≡ some v → Fits t v) where
    -- If a checked Boolean holds a number, by which a branch goes to the block `v`, and the values
    -- that no fold looks into hold numbers of their types, then the branch that `fold_branch`
    -- builds goes to `v`.
    pub fold_branch-target :
        (z : Node) (x y v : ℕ)
        → checked z ≡ true
        → node_type z ≡ bool
        → target (branch z x y) ≡ some v
        → target (fold_branch z x y) ≡ some v
    unfolding target fold_branch node_type binary_type
    fold_branch-target z x y v c t e =
        when_some_cases (λ i. target i ≡ some v) (is_not z) _ _
          (λ a h.
            let (u, q) = is_not-eq z a h in
            let m = type_mask (node_type a) in
            let (w, ew, r) = >>=-eq-some (number floats leaves z) _ e in
            let p =
              pieces floats leaves leaves-Fit xor_inst bit_xor (xor-IsBitwise floats) a (konst u m)
                w (subst (λ i. checked i ≡ true) q c) (ap (number floats leaves) (sym q) ∙ ew) in
            let ta : node_type a ≡ bool = sym (ap node_type q) ∙ t in
            let f : p.right ≡ 1 =
              some_eq (sym p.at_right ∙ konst_number floats leaves leaves-Fit u m p.right_checks)
              ∙ ap type_mask ta
              ∙ bool_mask in
            let g : w ≡ bit_xor p.left 1 = p.result ∙ ap (bit_xor p.left) f in
            let l : Fits bool p.left = rw ta at p.left-Fits in
            elim (Bool-cases (w == 0)) [
              | inl k ↦ let n = flipped w p.left l g k in rw (p.at_left, n) (rw k at r)
              | inr k ↦ let n = unflipped w p.left l g k in rw (p.at_left, n) (rw k at r)
            ])
          e

  -- For a Boolean that is 1 and another that is poison, in different objects, the select (cond ?
  -- cond : x) of both holds 1, and what `fold_select` gives for it holds no number.
  pub fold_select-loses_number :
      (same : Node → Node → Bool) (n m : ℕ)
      → same (leaf n bool) (leaf n bool) ≡ true
      → same (leaf n bool) (leaf m bool) ≡ false
      → leaves n bool ≡ some 1
      → leaves m bool ≡ none
      → (number floats leaves (select (leaf n bool) (leaf n bool) (leaf m bool)) ≡ some 1)
        × (r : Node) × (fold_select same (leaf n bool) (leaf n bool) (leaf m bool) ≡ some r)
        × (number floats leaves r ≡ none)
  unfolding number fold_select folds_to fold_select_step select_swapped select_bool_consts
      select_bool fold_or_step or_swapped or_masked do_binop_const_prop selects_const_prop
      is_const_select is_const_select_like as_konst is_not size same_type node_type as_masked
  fold_select-loses_number same n m h k p q =
      (rw p refl, binary or_inst (leaf n bool) (leaf m bool), rw (h, k) refl, rw (p, q) refl)
