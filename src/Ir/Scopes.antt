-- ===== src/Ir/Scopes.antt =====
-- The names that are in scope along a block, with their types, and what `NameMap` keeps of them.
use mathlib.Core.Path.{subst}
use metajit_cpp.Types.{IrType, same_type}
use metajit_cpp.Ir.{Value, named, Op, comment_inst, Inst, NameMap, get, set, args_of, is_terminator}
use metajit_cpp.Ir.Checks.{op_checks}
use metajit_cpp.Base.{
  ℕ, ◌<◌, Bool, true, false, not, ◌&&◌, List, [], ◌∷◌, Option, none, some, ◌≡◌, refl, ltb, ltb→lt,
  ◌==◌, if◌then◌else◌, some_eq, arith, Bool-cases, inl, inr,
}

abbrev pub Scope : Type 0
Scope = ℕ → Option IrType

unfoldable pub is_declared : Option IrType → IrType → Bool
unfolding same_type
is_declared none t = false
is_declared (some u) t = same_type u t

unfoldable pub in_scope : Scope → Value → Bool
unfolding is_declared
in_scope scope (named n t) = is_declared (scope n) t
in_scope scope _ = true

unfoldable pub all_in_scope : Scope → List Value → Bool
unfolding in_scope
all_in_scope scope [] = true
all_in_scope scope (v ∷ rest) = in_scope scope v && all_in_scope scope rest

unfoldable pub is_comment : Op → Bool
is_comment comment_inst = true
is_comment _ = false

-- A comment has a name and no value.
unfoldable pub declare : Scope → ℕ → IrType → Op → Scope
unfolding is_comment
declare scope n t op k = if is_comment op then scope k else if k == n then some t else scope k

unfoldable pub is_new : Option IrType → Bool
is_new none = true
is_new (some t) = false

-- An instruction before the end of a block: it passes its checks, uses names in scope, and its own
-- name is new.
unfoldable pub inst_checks : Scope → Inst → Bool
unfolding op_checks all_in_scope is_terminator is_new
inst_checks scope inst =
    op_checks inst.ty inst.op
    && (not (is_terminator inst.op)
        && (all_in_scope scope (args_of inst.op) && is_new (scope inst.name)))

unfoldable pub body_checks : Scope → List Inst → Bool
unfolding inst_checks declare
body_checks scope [] = true
body_checks scope (inst ∷ rest) =
    inst_checks scope inst && body_checks (declare scope inst.name inst.ty inst.op) rest

-- What is in scope after the instructions.
unfoldable pub scope_after : Scope → List Inst → Scope
unfolding declare
scope_after scope [] = scope
scope_after scope (inst ∷ rest) = scope_after (declare scope inst.name inst.ty inst.op) rest

module _ {A : Type 0} where
  -- `set` gives the name its new entry and keeps the others, and the size.
  pub get-set :
      (m m' : NameMap A) (n : ℕ) (x : A)
      → set m n x ≡ some m'
      → (k : ℕ) → get m' k ≡ (if k == n then some x else get m k)
  unfolding get set
  get-set m m' n x h k = elim (Bool-cases (ltb n m.size)) [
    | inl y ↦
        subst (λ (z : NameMap A). get z k ≡ (if k == n then some x else get m k))
          (some_eq (rw y at h)) (read y (k == n) refl)
    | inr w ↦ let q : none ≡ some m' = rw w at h in cc
  ]
    where
      read :
          ltb n m.size ≡ true
          → (c : Bool) → (k == n) ≡ c
          → (if ltb k m.size then some (if c then x else m.entry k) else none)
            ≡ (if c then some x else (if ltb k m.size then some (m.entry k) else none))
      read y true e = let q : ltb k m.size ≡ true = ground arith in rw q refl
      read y false e = refl

  pub set-size :
      (m m' : NameMap A) (n : ℕ) (x : A) → set m n x ≡ some m' → (m'.size ≡ m.size) × (n < m.size)
  unfolding set
  set-size m m' n x h = elim (Bool-cases (ltb n m.size)) [
    | inl y ↦
        subst (λ (z : NameMap A). (z.size ≡ m.size) × (n < m.size)) (some_eq (rw y at h))
          (refl, ltb→lt n m.size y)
    | inr w ↦ let q : none ≡ some m' = rw w at h in cc
  ]
