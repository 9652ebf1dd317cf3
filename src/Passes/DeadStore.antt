-- ===== src/Passes/DeadStore.antt =====
-- The class `DeadStoreElim`.
use metajit_cpp.Ir.{Op, load_inst, store_inst, call_inst, Inst, Block, NameMap, get, set}
use metajit_cpp.Word.Signed.{negsuc}
use metajit_cpp.Base.{
  ℕ, suc, Bool, true, false, ◌==◌, List, [], ◌∷◌, Option, none, some, ◌>>=◌, if◌then◌else◌,
}

-- `last_store` holds pairs of an index and the name of a store; an index that is not there holds a
-- null pointer.
pub record Sweep : Type 0 where
  pub unused : NameMap Bool
  pub last_store : List (ℕ × ℕ)

unfoldable pub find_store : List (ℕ × ℕ) → ℕ → Option ℕ
find_store [] g = none
find_store ((h, n) ∷ rest) g = if h == g then some n else find_store rest g

-- The loop that marks every last store as used.
unfoldable pub keep_all : List (ℕ × ℕ) → NameMap Bool → Option (NameMap Bool)
unfolding set
keep_all [] unused = some unused
keep_all ((h, n) ∷ rest) unused = do unused' ← set unused n false; keep_all rest unused'

-- An entry replaces the one of the same index.
unfoldable pub replace : List (ℕ × ℕ) → ℕ → ℕ → List (ℕ × ℕ)
replace [] g n = (g, n) ∷ []
replace ((h, m) ∷ rest) g n =
    let others = replace rest g n in if h == g then (g, n) ∷ rest else (h, m) ∷ others

unfoldable pub visit_op : ℕ → Op → Sweep → Option Sweep
unfolding find_store keep_all replace set
visit_op name (store_inst p v (negsuc g) offset) s = do
  unused ← set s.unused name true
  some record { unused = unused; last_store = replace s.last_store (suc g) name }
visit_op name (load_inst p (negsuc g) offset) s = elim (find_store s.last_store (suc g)) [
  | none ↦ some s
  | some n ↦ do unused ← set s.unused n false; some (record s { unused = unused })
]
visit_op name (call_inst f vs) s = do
  unused ← keep_all s.last_store s.unused
  some record { unused = unused; last_store = [] }
visit_op name op s = some s

unfoldable pub visit : Inst → Sweep → Option Sweep
unfolding visit_op
visit inst s = visit_op inst.name inst.op s

unfoldable pub visit_insts : List Inst → Sweep → Option Sweep
unfolding visit
visit_insts [] s = some s
visit_insts (inst ∷ rest) s = do s' ← visit inst s; visit_insts rest s'

-- `filter_inplace`
unfoldable pub filter_unused : NameMap Bool → List Inst → Option (List Inst)
unfolding get
filter_unused unused [] = some []
filter_unused unused (inst ∷ rest) = do
  dead ← get unused inst.name
  kept ← filter_unused unused rest
  some (if dead then kept else inst ∷ kept)

unfoldable pub eliminate_block : NameMap Bool → Block → Option (NameMap Bool × Block)
unfolding visit_insts keep_all filter_unused
eliminate_block unused block = do
  s ← visit_insts block.insts record { unused = unused; last_store = [] }
  unused' ← keep_all s.last_store s.unused
  insts ← filter_unused unused' block.insts
  some (unused', record block { insts = insts })

unfoldable pub eliminate_blocks : NameMap Bool → List Block → Option (List Block)
unfolding eliminate_block
eliminate_blocks unused [] = some []
eliminate_blocks unused (block ∷ rest) = do
  (unused', block') ← eliminate_block unused block
  rest' ← eliminate_blocks unused' rest
  some (block' ∷ rest')

-- `size` is the number of names of the section.
unfoldable pub dead_store_elim : ℕ → List Block → Option (List Block)
unfolding eliminate_blocks
dead_store_elim size blocks = eliminate_blocks record { size = size; entry = λ n. false } blocks
