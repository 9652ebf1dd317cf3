-- ===== src/Tests/Folds.antt =====
-- Runs of the folds of `Builder` (jitir.tmpl.hpp).
use mathlib.Core.Path.{subst}
use metajit_cpp.Types.{IrType, bool, int8, int64, ptr, type_mask, same_type}
use metajit_cpp.Ir.{
  and_inst, or_inst, xor_inst, add_inst, sub_inst, mul_inst, add_ptr_inst, mod_u_inst,
}
use metajit_cpp.Ir.Checks.{same_type→eq}
use metajit_cpp.Interpreter.Eval as IE
use metajit_cpp.Word.Signed.{negsuc}
use metajit_cpp.Word.Ops.{add64}
use metajit_cpp.Folding.{Node, konst, leaf, binary, select, node_type, checked}
use metajit_cpp.Folding.Checked.{both_true}
use metajit_cpp.Folding.Numbers.{number, Folds-to}
use metajit_cpp.Folding.Operands.{Fits, cut-Fits}
use metajit_cpp.Folding.Bitwise.{fold_and, fold_or, fold_xor, fold_select}
use metajit_cpp.Folding.Arith.{fold_add, fold_sub, fold_mul, fold_mod_u, fold_add_ptr}
use metajit_cpp.Folding.Compare.{fold_eq, fold_ne, fold_lt_u, fold_gt_u, fold_le_u, fold_ge_u}
use metajit_cpp.Folding.Effects.{fold_branch, fold_load, fold_store}
use metajit_cpp.Folding.Good.{Selects-to}
use metajit_cpp.Folding.Sound.{bitwise_folds, fold_select-Selects-to}
use metajit_cpp.Folding.Arithmetic.{arithmetic_folds}
use metajit_cpp.Folding.Orders.{Holds, fold_comparisons-Hold}
use metajit_cpp.Folding.Pointers.{address, fold_add_ptr-Folds-to, fold_access-address}
use metajit_cpp.Folding.Targets.{target, fold_branch-target, fold_select-loses_number}
use metajit_cpp.Base.{
  ℕ, Bool, true, false, not, ◌&&◌, Option, some, none, ◌≡◌, refl, ap₂, some_eq, ◌==◌, ==→eq,
  bit_and, ltb, leb, if◌then◌else◌,
}

abbrev no_floats : IE.FloatUnit
no_floats o w x y = 0

-- The value with the name `n` holds `n`, cut to its type.
abbrev by_name : ℕ → IrType → Option ℕ
by_name n t = some (bit_and n (type_mask t))

by_name-Fit : (n : ℕ) (t : IrType) (v : ℕ) → by_name n t ≡ some v → Fits t v
by_name-Fit n t v h = subst (Fits t) (some_eq h) (cut-Fits t n)

-- The values with a name are one object each, and all others are different objects.
unfoldable same_leaf : Node → Node → Bool
unfolding same_type
same_leaf (leaf n t) (leaf m u) = n == m && same_type t u
same_leaf _ _ = false

same_leaf-eq : (x y : Node) → same_leaf x y ≡ true → x ≡ y
unfolding same_leaf
same_leaf-eq (leaf n t) (leaf m u) h =
    let (p, q) = both_true h in ap₂ leaf (==→eq n m p) (same_type→eq t u q)
same_leaf-eq _ _ h = cc

abbrev x8 : Node
x8 = leaf 93 int8

-- `(x & 60) | (x & 3)` folds to `x & 63`.
folded_masks :
    fold_or same_leaf (binary and_inst x8 (konst int8 60)) (binary and_inst x8 (konst int8 3))
    ≡ some (binary and_inst x8 (konst int8 63))
unfolding fold_or same_leaf type_mask node_type
folded_masks = refl

abbrev low : Node
low = binary and_inst x8 (konst int8 3)

abbrev high : Node
high = binary and_inst x8 (konst int8 60)

bitwise_folds_example :
    Folds-to no_floats by_name (binary and_inst high low) (fold_and same_leaf high low)
    × Folds-to no_floats by_name (binary or_inst high low) (fold_or same_leaf high low)
    × Folds-to no_floats by_name (binary xor_inst high low) (fold_xor same_leaf high low)
bitwise_folds_example =
    bitwise_folds no_floats by_name by_name-Fit same_leaf same_leaf-eq high low
      (unfold checked in unfold type_mask in refl)

abbrev flag_leaf : Node
flag_leaf = leaf 1 bool

fold_select_example :
    Selects-to no_floats by_name flag_leaf
      (select flag_leaf x8 high)
      low
      (fold_select same_leaf flag_leaf (select flag_leaf x8 high) low)
fold_select_example =
    fold_select-Selects-to no_floats by_name by_name-Fit same_leaf same_leaf-eq flag_leaf
      (select flag_leaf x8 high) low (unfold checked in unfold type_mask in refl)

abbrev sum8 : Node
sum8 = binary add_inst x8 (konst int8 200)

abbrev hundred : Node
hundred = konst int8 128

arithmetic_folds_example :
    Folds-to no_floats by_name (binary add_inst sum8 hundred) (fold_add same_leaf sum8 hundred)
    × Folds-to no_floats by_name (binary sub_inst sum8 hundred) (fold_sub same_leaf sum8 hundred)
    × Folds-to no_floats by_name (binary mul_inst sum8 hundred) (fold_mul same_leaf sum8 hundred)
    × Folds-to no_floats by_name
        (binary mod_u_inst sum8 hundred)
        (fold_mod_u same_leaf sum8 hundred)
arithmetic_folds_example =
    arithmetic_folds no_floats by_name by_name-Fit same_leaf same_leaf-eq sum8 hundred
      (unfold checked in unfold type_mask in refl)

fold_comparisons_example :
    Holds no_floats by_name by_name-Fit same_leaf same_leaf-eq
      (93 == 200)
      (fold_eq same_leaf x8 (konst int8 200))
    × Holds no_floats by_name by_name-Fit same_leaf same_leaf-eq
        (not (93 == 200))
        (fold_ne same_leaf x8 (konst int8 200))
    × Holds no_floats by_name by_name-Fit same_leaf same_leaf-eq
        (ltb 93 200)
        (fold_lt_u same_leaf x8 (konst int8 200))
    × Holds no_floats by_name by_name-Fit same_leaf same_leaf-eq
        (ltb 200 93)
        (fold_gt_u same_leaf x8 (konst int8 200))
    × Holds no_floats by_name by_name-Fit same_leaf same_leaf-eq
        (leb 93 200)
        (fold_le_u same_leaf x8 (konst int8 200))
    × Holds no_floats by_name by_name-Fit same_leaf same_leaf-eq
        (leb 200 93)
        (fold_ge_u same_leaf x8 (konst int8 200))
fold_comparisons_example =
    fold_comparisons-Hold no_floats by_name by_name-Fit same_leaf same_leaf-eq x8 (konst int8 200)
      93 200 (unfold checked in unfold type_mask in refl)
      (unfold number in unfold type_mask in refl) (unfold number in unfold type_mask in refl)

abbrev pointer : Node
pointer = binary add_ptr_inst (leaf 4096 ptr) (konst int64 16)

fold_add_ptr_example :
    Folds-to no_floats by_name
      (binary add_ptr_inst pointer (konst int64 8))
      (fold_add_ptr same_leaf pointer (konst int64 8))
fold_add_ptr_example =
    fold_add_ptr-Folds-to no_floats by_name by_name-Fit same_leaf pointer (konst int64 8)
      (unfold checked in unfold type_mask in refl)

fold_access_example :
    (address no_floats by_name by_name-Fit (fold_load pointer int8 0 (negsuc 0) 24)
      ≡ some (add64 4112 24))
    × (address no_floats by_name by_name-Fit (fold_store pointer x8 (negsuc 0) 24)
        ≡ some (add64 4112 24))
unfolding add64
fold_access_example =
    fold_access-address no_floats by_name by_name-Fit pointer x8 int8 0 (negsuc 0) 24 4112
      (unfold checked in unfold type_mask in refl) (unfold number in unfold type_mask in refl)

abbrev no_flag : Node
no_flag = binary xor_inst flag_leaf (konst bool 1)

fold_branch_example : target no_floats by_name (fold_branch no_flag 7 8) ≡ some 8
fold_branch_example =
    fold_branch-target no_floats by_name by_name-Fit no_flag 7 8 8
      (unfold checked in unfold type_mask in refl) (unfold node_type in refl)
      (unfold target in unfold number in unfold type_mask in refl)

-- Value 1 is true, and value 2 is poison.
abbrev half_poison : ℕ → IrType → Option ℕ
half_poison n t = if n == 2 then none else some 1

loses_number_example :
    (number no_floats half_poison (select (leaf 1 bool) (leaf 1 bool) (leaf 2 bool)) ≡ some 1)
    × (r : Node) × (fold_select same_leaf (leaf 1 bool) (leaf 1 bool) (leaf 2 bool) ≡ some r)
    × (number no_floats half_poison r ≡ none)
loses_number_example =
    fold_select-loses_number no_floats half_poison same_leaf 1 2 (unfold same_leaf in refl)
      (unfold same_leaf in refl) refl refl
