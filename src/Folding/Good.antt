-- ===== src/Folding/Good.antt =====
-- What the folds of `Builder` that call each other (jitir.tmpl.hpp) give, to a depth of calls.

use metajit_cpp.Types.{IrType, bool}
use metajit_cpp.Ir.{and_inst, or_inst, xor_inst}
use metajit_cpp.Interpreter.Eval as IE
use metajit_cpp.Folding.{Node, konst, binary, node_type, checked}
use metajit_cpp.Folding.Numbers.{Folded, Folded-refl, Folded-trans, Folds-to}
use metajit_cpp.Base.{ℕ, true, Option, some, ◌≡◌, refl}
use metajit_cpp.Folding.{select}
use metajit_cpp.Base.{suc, ◌+◌, ◌*◌, ◌<◌, ◌⊎◌, arith, inr}
use metajit_cpp.Folding.{is_konst}
use metajit_cpp.Folding.Consts.{Folds}
use metajit_cpp.Folding.Bitwise.{size}
use metajit_cpp.Folding.ConstProp.{SelectsConsts}

-- The arms between which every rule of `fold_select` keeps a number: not Booleans, or constants.
abbrev pub Safe : Node → Node → Type 0
Safe a b = (node_type a ≡ bool → ⊥) ⊎ ((is_konst a ≡ true) × (is_konst b ≡ true))

module _ (floats : IE.FloatUnit) (leaves : ℕ → IrType → Option ℕ) where
  -- `fold_select` ends, and what it gives passes the checks and has the type of the arms.
  pub record Selected (z a b r : Node) : Type 0 where
    pub typed : node_type r ≡ node_type a
    pub checks : checked r ≡ true
    pub folded : Safe a b → Folded floats leaves (select z a b) r

  abbrev pub Selects-to : Node → Node → Node → Option Node → Type 0
  Selects-to z a b o = (r : Node) × (o ≡ some r) × Selected z a b r

  pub record Good (folds : Folds) (n : ℕ) : Type 0 where
    pub selects :
        (z a b : Node)
        → 2 * (size z + (size a + size b)) + 1 < n
        → checked (select z a b) ≡ true
        → Selects-to z a b (folds.select_ z a b)
    pub ands :
        (a b : Node)
        → 2 * (size a + size b) < n
        → checked (binary and_inst a b) ≡ true
        → Folds-to floats leaves (binary and_inst a b) (folds.and_ a b)
    pub ors :
        (a b : Node)
        → 2 * (size a + size b) < n
        → checked (binary or_inst a b) ≡ true
        → Folds-to floats leaves (binary or_inst a b) (folds.or_ a b)
    pub xors :
        (a b : Node)
        → 2 * (size a + size b) < n
        → checked (binary xor_inst a b) ≡ true
        → Folds-to floats leaves (binary xor_inst a b) (folds.xor_ a b)

  pub Good-SelectsConsts :
      (folds : Folds) (n s : ℕ) (z : Node)
      → Good folds n
      → 2 * s < suc n
      → size z < s
      → SelectsConsts floats leaves folds z
  unfolding size is_konst
  Good-SelectsConsts folds n s z good p q t x y c =
      let (r, e, h) = good.selects z (konst t x) (konst t y) (omega arith) c in
      (r, e, h.folded (inr (refl, refl)))

  -- One rule, then a fold of what it gives.
  pub then_folds :
      (x y : Node) (o : Option Node)
      → Folded floats leaves x y
      → Folds-to floats leaves y o
      → Folds-to floats leaves x o
  then_folds x y o h (r, e, k) = (r, e, Folded-trans floats leaves x y r h k)

  pub done : (x y : Node) → Folded floats leaves x y → Folds-to floats leaves x (some y)
  done x y h = (y, refl, h)

  pub kept : (x : Node) → checked x ≡ true → Folds-to floats leaves x (some x)
  kept x h = (x, refl, Folded-refl floats leaves x h)
