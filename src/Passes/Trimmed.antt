-- ===== src/Passes/Trimmed.antt =====
-- The blocks that `DeadStoreElim` (jitir.tmpl.hpp) leaves.

use metajit_cpp.Ir.{Inst, Block, NameMap, get}
use metajit_cpp.Folding.Checked.{both_true}
use metajit_cpp.Passes.DeadStore.{
  Sweep, filter_unused, eliminate_block, eliminate_blocks, dead_store_elim,
}
use metajit_cpp.Passes.Closed.{all_insts}
use metajit_cpp.Passes.Overwritten.{
  absent, Distinct, dead_op, is_dead_store, Swept, visit_insts-stays, visit_insts-dead,
}
use metajit_cpp.Passes.Held.{Free}
use metajit_cpp.Passes.Kept.{visit_insts-marks}
use metajit_cpp.Passes.Ranges.{Named, Below, keep_all-some, visit_insts-some}
use metajit_cpp.Base.{
  if◌then◌else◌, ℕ, Bool, true, false, not, ◌==◌, ltb, List, [], ◌∷◌, ◌++◌, some, ◌≡◌, refl, sym,
  ap, ◌∙◌, ◌⊎◌, inl, inr, ==→eq, eq→==, Bool-cases,
}

-- A block without the stores to exact groups that are overwritten.
unfoldable pub without_dead : List Inst → List Inst
unfolding dead_op
without_dead [] = []
without_dead (inst ∷ rest) =
    let kept = without_dead rest in if dead_op inst.op rest then kept else inst ∷ kept

unfoldable pub blocks_without_dead : List Block → List Block
unfolding without_dead
blocks_without_dead [] = []
blocks_without_dead (block ∷ rest) =
    record block { insts = without_dead block.insts } ∷ blocks_without_dead rest

Unmarked : NameMap Bool → List Inst → Type 0
Unmarked u insts = (n : ℕ) → absent n insts ≡ false → u.entry n ≡ false

DeadStores : NameMap Bool → List Inst → Type 0
DeadStores u insts = (n : ℕ) → absent n insts ≡ false → u.entry n ≡ is_dead_store n insts

own_name : (inst : Inst) (rest : List Inst) → absent inst.name (inst ∷ rest) ≡ false
unfolding absent
own_name inst rest = let e = eq→== inst.name inst.name refl in rw e refl

later_name :
    (inst : Inst) (rest : List Inst) (n : ℕ)
    → absent inst.name rest ≡ true
    → absent n rest ≡ false
    → ((n == inst.name) ≡ false) × (absent n (inst ∷ rest) ≡ false)
unfolding absent
later_name inst rest n a b = elim (Bool-cases (n == inst.name)) [
  | inl c ↦ let d = ==→eq n inst.name c in let e : absent n rest ≡ true = rw d a in cc
  | inr c ↦ (c, rw (c, b) refl)
]

DeadStores-rest :
    (u : NameMap Bool) (inst : Inst) (rest : List Inst)
    → absent inst.name rest ≡ true
    → DeadStores u (inst ∷ rest)
    → DeadStores u rest
unfolding DeadStores is_dead_store
DeadStores-rest u inst rest a d n b =
    let (c, e) = later_name inst rest n a b in
    let f : u.entry n ≡ is_dead_store n (inst ∷ rest) = d n e in rw c at f

filter_unused-eq :
    (u : NameMap Bool) (size : ℕ) (insts : List Inst)
    → u.size ≡ size
    → Named size insts
    → Distinct insts
    → DeadStores u insts
    → filter_unused u insts ≡ some (without_dead insts)
unfolding filter_unused Named Distinct DeadStores is_dead_store get without_dead
filter_unused-eq u size [] e l d m = refl
filter_unused-eq u size (inst ∷ rest) e (l, named) (a, d) m =
    let l' : ltb inst.name u.size ≡ true = ap (ltb inst.name) e ∙ l in
    let i = filter_unused-eq u size rest e named d (DeadStores-rest u inst rest a m) in
    let f : u.entry inst.name ≡ is_dead_store inst.name (inst ∷ rest) =
      m inst.name (own_name inst rest) in
    let g : u.entry inst.name ≡ dead_op inst.op rest = rw (eq→== inst.name inst.name refl) at f in
    rw (l', i, g) refl

exactly_dead :
    (insts : List Inst) (s : Sweep) (u' : NameMap Bool)
    → Swept insts s u'
    → Distinct insts
    → ((n : ℕ) → Free n s.last_store)
    → Unmarked s.unused insts
    → DeadStores u' insts
unfolding Unmarked DeadStores
exactly_dead insts s u' sw d f m n b = elim (Bool-cases (u'.entry n)) [
  | inl t ↦ t ∙ sym (visit_insts-dead insts s u' n sw d (m n b) t)
  | inr t ↦ elim (Bool-cases (is_dead_store n insts)) [
    | inl o ↦ visit_insts-marks insts s u' n sw d (f n) o ∙ sym o
    | inr o ↦ t ∙ sym o
  ]
]

eliminate_block-eq :
    (unused : NameMap Bool) (size : ℕ) (block : Block)
    → unused.size ≡ size
    → Named size block.insts
    → Distinct block.insts
    → Unmarked unused block.insts
    → (unused' : NameMap Bool) × (eliminate_block unused block
        ≡ some (unused', record block { insts = without_dead block.insts }))
      × (unused'.size ≡ size)
      × ((n : ℕ) → absent n block.insts ≡ true → unused.entry n ≡ false → unused'.entry n ≡ false)
unfolding eliminate_block Swept Below Free
eliminate_block-eq unused size block e named d m =
    let start : Sweep = record { unused = unused; last_store = [] } in
    let (s, p, r) =
      visit_insts-some block.insts start size named record { in_range = e; last = tt } in
    let (u, q, e') = keep_all-some s.last_store s.unused size r.in_range r.last in
    let dead = exactly_dead block.insts start u (s, p, q) d (λ n. tt) m in
    let f = filter_unused-eq u size block.insts e' named d dead in
    (u, rw (p, q, f) refl, e', λ n a i. visit_insts-stays block.insts start u n (s, p, q) a i)

absent-append :
    (n : ℕ) (xs ys : List Inst)
    → absent n (xs ++ ys) ≡ true
    → (absent n xs ≡ true) × (absent n ys ≡ true)
unfolding absent
absent-append n [] ys h = (refl, h)
absent-append n (x ∷ xs) ys h =
    let (b, c) = both_true {x = not (n == x.name)} h in
    let (p, q) = absent-append n xs ys c in (rw (b, p) refl, q)

present :
    (n : ℕ) (xs ys : List Inst)
    → (absent n xs ≡ false) ⊎ (absent n ys ≡ false)
    → absent n (xs ++ ys) ≡ false
present n xs ys h = elim (Bool-cases (absent n (xs ++ ys))) [
  | inl b ↦ let (p, q) = absent-append n xs ys b in elim h [ inl e ↦ cc | inr e ↦ cc ]
  | inr b ↦ b
]

Distinct-append :
    (xs ys : List Inst)
    → Distinct (xs ++ ys)
    → Distinct xs × Distinct ys × ((n : ℕ) → absent n ys ≡ false → absent n xs ≡ true)
unfolding Distinct absent
Distinct-append [] ys d = (tt, d, λ n b. refl)
Distinct-append (x ∷ xs) ys (a, d) =
    let (p, q, r) = Distinct-append xs ys d in
    let (e, f) = absent-append x.name xs ys a in
    ((e, p), q, λ n b. rw ((later_name x ys n f b).0, r n b) refl)

Named-append :
    (size : ℕ) (xs ys : List Inst) → Named size (xs ++ ys) → Named size xs × Named size ys
unfolding Named
Named-append size [] ys l = (tt, l)
Named-append size (x ∷ xs) ys (l, named) = let (p, q) = Named-append size xs ys named in ((l, p), q)

eliminate_blocks-eq :
    (unused : NameMap Bool) (size : ℕ) (blocks : List Block)
    → unused.size ≡ size
    → Named size (all_insts blocks)
    → Distinct (all_insts blocks)
    → Unmarked unused (all_insts blocks)
    → eliminate_blocks unused blocks ≡ some (blocks_without_dead blocks)
unfolding eliminate_blocks all_insts blocks_without_dead Unmarked
eliminate_blocks-eq unused size [] e named d m = refl
eliminate_blocks-eq unused size (block ∷ rest) e named d m =
    let (d1, d2, apart) = Distinct-append block.insts (all_insts rest) d in
    let (l1, l2) = Named-append size block.insts (all_insts rest) named in
    let (unused', p, e', stays) =
      eliminate_block-eq unused size block e l1 d1
        (λ n b. m n (present n block.insts (all_insts rest) (inl b))) in
    let q =
      eliminate_blocks-eq unused' size rest e' l2 d2
        (λ n b. stays n (apart n b) (m n (present n block.insts (all_insts rest) (inr b)))) in
    rw (p, q) refl

-- Dead store elimination removes exactly the stores that are overwritten unseen. If the
-- instructions of a section have names of their own, below the section's number of names, then the
-- pass ends, and each block has its arguments and its instructions in their order, without each
-- store to an exact group after which the block has another store to the group before any load of
-- the group and any call.
pub dead_store_elim-blocks_without_dead :
    (size : ℕ) (blocks : List Block)
    → Named size (all_insts blocks)
    → Distinct (all_insts blocks)
    → dead_store_elim size blocks ≡ some (blocks_without_dead blocks)
unfolding dead_store_elim Unmarked
dead_store_elim-blocks_without_dead size blocks named d =
    eliminate_blocks-eq record { size = size; entry = λ n. false } size blocks refl named d
      (λ n b. refl)
