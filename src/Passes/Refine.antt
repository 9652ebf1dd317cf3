-- ===== src/Passes/Refine.antt =====
-- The class `RefineAliasing`.
use metajit_cpp.Types.{IrType, void, type_size, same_type}
use metajit_cpp.Ir.{Value, type_of, Op, load_inst, store_inst, Inst, Block}
use metajit_cpp.Word.Ops.{mod64}
use metajit_cpp.Word.Signed.{ℤ, pos, negsuc}
use metajit_cpp.Base.{
  ℕ, zero, suc, Bool, true, false, not, ◌&&◌, ◌||◌, ltb, ◌==◌, List, [], ◌∷◌, ◌++◌, Option, none,
  some, ◌>>=◌, if◌then◌else◌,
}

-- `base` is `none` for a null pointer.
pub record GroupInfo : Type 0 where
  pub is_invalid : Bool
  pub base : Option Value
  pub ty : IrType

-- A load or a store of a group that is not exact, by the name of the instruction.
pub record Access : Type 0 where
  pub name : ℕ
  pub group : ℕ
  pub ptr : Value
  pub offset : ℕ
  pub ty : IrType

pub record Refine : Type 0 where
  pub groups : ℕ → GroupInfo
  pub min_exact_group : ℤ
  pub exact_groups : ℕ → ℕ → Option ℤ
  pub loads : List Access
  pub stores : List Access

-- The state before the first instruction; the vector of groups grows by default entries.
unfoldable pub start : Refine
start = record {
  groups = λ g. record { is_invalid = false; base = none; ty = void };
  min_exact_group = pos 0;
  exact_groups = λ g offset. none;
  loads = [];
  stores = [];
}

unfoldable pub set_group : Refine → ℕ → GroupInfo → Refine
set_group r g info = record r { groups = λ k. if k == g then info else r.groups k }

-- `std::min` and `--` on groups.
unfoldable pub min_group : ℤ → ℤ → ℤ
min_group (pos a) (pos b) = if ltb b a then pos b else pos a
min_group (pos a) (negsuc b) = negsuc b
min_group (negsuc a) (pos b) = negsuc a
min_group (negsuc a) (negsuc b) = if ltb a b then negsuc b else negsuc a

unfoldable pub decrement : ℤ → ℤ
decrement (pos zero) = negsuc 0
decrement (pos (suc n)) = pos n
decrement (negsuc n) = negsuc (suc n)

-- `apply`: a new exact group for an offset that has none.
unfoldable pub apply : Refine → ℕ → ℕ → ℤ × Refine
unfolding decrement
apply r g offset = if (r.groups g).is_invalid then (pos g, r) else elim (r.exact_groups g offset) [
  | some exact ↦ (exact, r)
  | none ↦
      let fresh = decrement r.min_exact_group in
      (
        fresh,
        record r {
          min_exact_group = fresh;
          exact_groups = λ h o. if h == g && o == offset then some fresh else r.exact_groups h o;
        },
      )
]

-- The loops over the loads and the stores: the new group of each instruction.
unfoldable pub apply_all : List Access → Refine → List (ℕ × ℤ) × Refine
unfolding apply
apply_all [] r = ([], r)
apply_all (a ∷ rest) r =
    let (g, r1) = apply r a.group a.offset in
    let (gs, r2) = apply_all rest r1 in ((a.name, g) ∷ gs, r2)

unfoldable pub lookup : List (ℕ × ℤ) → ℕ → ℤ → ℤ
lookup [] name old = old
lookup ((n, g) ∷ rest) name old = if n == name then g else lookup rest name old

unfoldable pub regroup : List (ℕ × ℤ) → ℕ → Op → Op
unfolding lookup
regroup new name (load_inst p g offset) = load_inst p (lookup new name g) offset
regroup new name (store_inst p v g offset) = store_inst p v (lookup new name g) offset
regroup new name op = op

unfoldable pub set_aliasing : List (ℕ × ℤ) → Inst → Inst
unfolding regroup
set_aliasing new inst = record inst { op = regroup new inst.name inst.op }

unfoldable pub set_all : List (ℕ × ℤ) → List Inst → List Inst
unfolding set_aliasing
set_all new [] = []
set_all new (inst ∷ rest) = set_aliasing new inst ∷ set_all new rest

unfoldable pub set_blocks : List (ℕ × ℤ) → List Block → List Block
unfolding set_all
set_blocks new [] = []
set_blocks new (block ∷ rest) =
    record block { insts = set_all new block.insts } ∷ set_blocks new rest

-- `same` compares the pointers to two values.
module _ (same : Value → Value → Bool) where
  -- `access`; `none` is a remainder by zero.
  unfoldable pub access : Access → Refine → Option Refine
  unfolding set_group same_type mod64 type_size
  access a r =
      let info = r.groups a.group in
      if info.is_invalid then some r else elim info.base [
        | none ↦ some (set_group r a.group record info { base = some a.ptr; ty = a.ty })
        | some base ↦
            if not (same base a.ptr) || not (same_type info.ty a.ty)
            then some (set_group r a.group record info { is_invalid = true })
            else (do
              rest ← mod64 a.offset (type_size a.ty)
              some (
                  if not (rest == 0)
                  then set_group r a.group record info { is_invalid = true }
                  else r))
      ]

  unfoldable pub visit_op : Inst → Op → Refine → Option Refine
  unfolding access min_group type_of
  visit_op inst (load_inst p (pos g) offset) r =
      let a : Access = record {
        name = inst.name;
        group = g;
        ptr = p;
        offset = offset;
        ty = inst.ty;
      } in
      access a (record r { loads = r.loads ++ (a ∷ []) })
  visit_op inst (load_inst p (negsuc g) offset) r =
      some (record r { min_exact_group = min_group r.min_exact_group (negsuc g) })
  visit_op inst (store_inst p v (pos g) offset) r =
      let a : Access = record {
        name = inst.name;
        group = g;
        ptr = p;
        offset = offset;
        ty = type_of v;
      } in
      access a (record r { stores = r.stores ++ (a ∷ []) })
  visit_op inst (store_inst p v (negsuc g) offset) r =
      some (record r { min_exact_group = min_group r.min_exact_group (negsuc g) })
  visit_op inst op r = some r

  unfoldable pub visit : Inst → Refine → Option Refine
  unfolding visit_op
  visit inst r = visit_op inst inst.op r

  unfoldable pub visit_insts : List Inst → Refine → Option Refine
  unfolding visit
  visit_insts [] r = some r
  visit_insts (inst ∷ rest) r = do r' ← visit inst r; visit_insts rest r'

  unfoldable pub visit_blocks : List Block → Refine → Option Refine
  unfolding visit_insts
  visit_blocks [] r = some r
  visit_blocks (block ∷ rest) r = do r' ← visit_insts block.insts r; visit_blocks rest r'

  unfoldable pub refine_aliasing : List Block → Option (List Block)
  unfolding visit_blocks apply_all set_blocks start
  refine_aliasing blocks = do
    r ← visit_blocks blocks start
    let (of_loads, r1) = apply_all r.loads r
    let (of_stores, r2) = apply_all r.stores r1
    some (set_blocks (of_loads ++ of_stores) blocks)
