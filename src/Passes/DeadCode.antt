-- ===== src/Passes/DeadCode.antt =====
-- The class `DeadCodeElim`.
use metajit_cpp.Ir.{
  Value, named, Op, Inst, Block, NameMap, get, set, args_of, has_side_effect, is_terminator,
}
use metajit_cpp.Ir.Scopes.{is_comment}
use metajit_cpp.Base.{ℕ, Bool, true, false, ◌||◌, List, [], ◌∷◌, Option, some, ◌>>=◌, if◌then◌else◌}

-- `is_inst` tells the names of instructions from those of arguments.
module _ (is_inst : ℕ → Bool) where
  unfoldable pub mark_arg : Value → NameMap Bool → Option (NameMap Bool)
  unfolding set
  mark_arg (named n t) used = if is_inst n then set used n true else some used
  mark_arg _ used = some used

  unfoldable pub mark_args : List Value → NameMap Bool → Option (NameMap Bool)
  unfolding mark_arg
  mark_args [] used = some used
  mark_args (v ∷ rest) used = do used' ← mark_arg v used; mark_args rest used'

  unfoldable pub is_root : Op → Bool
  unfolding has_side_effect is_terminator is_comment
  is_root op = has_side_effect op || (is_terminator op || is_comment op)

  unfoldable pub visit : Inst → NameMap Bool → Option (NameMap Bool)
  unfolding get set is_root mark_args args_of
  visit inst used = do
    seen ← get used inst.name
    (if seen || is_root inst.op
        then (do used' ← set used inst.name true; mark_args (args_of inst.op) used')
        else some used)

  -- The blocks, and the instructions of each, from the last one.
  unfoldable pub visit_insts : List Inst → NameMap Bool → Option (NameMap Bool)
  unfolding visit
  visit_insts [] used = some used
  visit_insts (inst ∷ rest) used = do used' ← visit_insts rest used; visit inst used'

  unfoldable pub visit_blocks : List Block → NameMap Bool → Option (NameMap Bool)
  unfolding visit_insts
  visit_blocks [] used = some used
  visit_blocks (block ∷ rest) used = do
    used' ← visit_blocks rest used
    visit_insts block.insts used'

  -- `filter_inplace`
  unfoldable pub filter_used : NameMap Bool → List Inst → Option (List Inst)
  unfolding get
  filter_used used [] = some []
  filter_used used (inst ∷ rest) = do
    live ← get used inst.name
    kept ← filter_used used rest
    some (if live then inst ∷ kept else kept)

  unfoldable pub filter_blocks : NameMap Bool → List Block → Option (List Block)
  unfolding filter_used
  filter_blocks used [] = some []
  filter_blocks used (block ∷ rest) = do
    insts ← filter_used used block.insts
    rest' ← filter_blocks used rest
    some (record block { insts = insts } ∷ rest')

  -- `size` is the number of names of the section.
  unfoldable pub dead_code_elim : ℕ → List Block → Option (List Block)
  unfolding visit_blocks filter_blocks
  dead_code_elim size blocks = do
    used ← visit_blocks blocks record { size = size; entry = λ n. false }
    filter_blocks used blocks
