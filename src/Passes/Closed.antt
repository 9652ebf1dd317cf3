-- ===== src/Passes/Closed.antt =====
-- What `DeadCodeElim` (jitir.tmpl.hpp) marks in a section whose values are defined before their uses.
use mathlib.Core.Path.{subst}
use metajit_cpp.Ir.{Value, const, poison, symbol, named, Inst, Block, NameMap, get, set, args_of}
use metajit_cpp.Passes.DeadCode.{mark_arg, mark_args, is_root, visit, visit_insts, visit_blocks}
use metajit_cpp.Base.{
  ℕ, Bool, true, false, ◌||◌, ◌==◌, ltb, List, [], ◌∷◌, ◌++◌, none, some, >>=-eq-some, some_eq,
  if◌then◌else◌, ◌≡◌, refl, sym, ap, ◌∙◌, inl, inr, eq→==, Bool-cases,
}

-- The operands have the name `n` among them.
unfoldable pub mentions : ℕ → List Value → Bool
mentions n [] = false
mentions n (named m t ∷ rest) = n == m || mentions n rest
mentions n (v ∷ rest) = mentions n rest

-- No later instruction has the name of `inst` or of one of its operands.
unfoldable pub BeforeAll : Inst → List Inst → Type 0
BeforeAll inst [] = Unit {0}
BeforeAll inst (later ∷ rest) =
    (mentions later.name (args_of inst.op) ≡ false)
    × ((later.name == inst.name) ≡ false)
    × BeforeAll inst rest

-- Each instruction has a name of its own, and uses names of earlier instructions only.
unfoldable pub InOrder : List Inst → Type 0
unfolding BeforeAll
InOrder [] = Unit {0}
InOrder (inst ∷ rest) = BeforeAll inst rest × InOrder rest

-- The instructions of all blocks, as the pass meets them from the last one.
unfoldable pub all_insts : List Block → List Inst
all_insts [] = []
all_insts (block ∷ rest) = block.insts ++ all_insts rest

module _ (is_inst : ℕ → Bool) where
  -- The operands that are instructions are marked.
  unfoldable pub ArgsMarked : NameMap Bool → List Value → Type 0
  ArgsMarked used [] = Unit {0}
  ArgsMarked used (named n t ∷ rest) =
      (is_inst n ≡ true → used.entry n ≡ true) × ArgsMarked used rest
  ArgsMarked used (v ∷ rest) = ArgsMarked used rest

  -- What has effects is marked, and so are the operands of what is marked.
  unfoldable pub Closed : NameMap Bool → List Inst → Type 0
  unfolding ArgsMarked is_root
  Closed used [] = Unit {0}
  Closed used (inst ∷ rest) =
      (used.entry inst.name ≡ true → ArgsMarked used (args_of inst.op))
      × (is_root is_inst inst.op ≡ true → used.entry inst.name ≡ true)
      × Closed used rest

  -- `used'` has more marks.
  abbrev pub More : NameMap Bool → NameMap Bool → Type 0
  More used used' = (n : ℕ) → used.entry n ≡ true → used'.entry n ≡ true

  More-ArgsMarked :
      (used used' : NameMap Bool) (vs : List Value)
      → More used used'
      → ArgsMarked used vs
      → ArgsMarked used' vs
  unfolding ArgsMarked
  More-ArgsMarked used used' [] h p = p
  More-ArgsMarked used used' (named n t ∷ rest) h (p, q) =
      ((λ i. h n (p i)), More-ArgsMarked used used' rest h q)
  More-ArgsMarked used used' (const t v ∷ rest) h p = More-ArgsMarked used used' rest h p
  More-ArgsMarked used used' (poison t ∷ rest) h p = More-ArgsMarked used used' rest h p
  More-ArgsMarked used used' (symbol t s ∷ rest) h p = More-ArgsMarked used used' rest h p

  -- One mark.
  record SetTrue (n : ℕ) (used used' : NameMap Bool) : Type 0 where
    marked : used'.entry n ≡ true
    others : (k : ℕ) → (k == n) ≡ false → used'.entry k ≡ used.entry k
    more : More used used'

  set_true :
      (n : ℕ) (used used' : NameMap Bool) → set used n true ≡ some used' → SetTrue n used used'
  unfolding set
  set_true n used used' h = elim (Bool-cases (ltb n used.size)) [
    | inl b ↦ subst (SetTrue n used) (some_eq (rw b at h)) record {
      marked = rw (eq→== n n refl) refl;
      others = λ k e. rw e refl;
      more = λ k e. elim (Bool-cases (k == n)) [ inl f ↦ rw f refl | inr f ↦ rw f e ];
    }
    | inr b ↦ let e : none ≡ some used' = rw b at h in cc
  ]

  record Marked (vs : List Value) (used used' : NameMap Bool) : Type 0 where
    args : ArgsMarked used' vs
    others : (k : ℕ) → mentions k vs ≡ false → used'.entry k ≡ used.entry k
    more : More used used'

  either_false : (x y : Bool) → (x || y) ≡ false → (x ≡ false) × (y ≡ false)
  either_false false false h = (refl, refl)
  either_false true y h = cc
  either_false false true h = cc

  mark_args-Marked :
      (vs : List Value) (used used' : NameMap Bool)
      → mark_args is_inst vs used ≡ some used'
      → Marked vs used used'
  unfolding mark_args mark_arg mentions ArgsMarked
  mark_args-Marked [] used used' h =
      subst (Marked [] used) (some_eq h) record { args = tt; others = λ k e. refl; more = λ k e. e }
  mark_args-Marked (named n t ∷ rest) used used' h =
      let (used1, p, q) = >>=-eq-some (if is_inst n then set used n true else some used) _ h in
      let r = mark_args-Marked rest used1 used' q in
      elim (Bool-cases (is_inst n)) [
        | inl b ↦
            let s = set_true n used used1 (rw b at p) in
            record {
              args = ((λ _. r.more n s.marked), r.args);
              others = λ k e.
                  let (x, y) = either_false (k == n) (mentions k rest) e in
                  r.others k y ∙ s.others k x;
              more = λ k e. r.more k (s.more k e);
            }
        | inr b ↦
            let e1 : used ≡ used1 = some_eq (rw b at p) in
            record {
              args = ((λ i. cc), r.args);
              others = λ k e.
                  let (x, y) = either_false (k == n) (mentions k rest) e in
                  r.others k y ∙ ap (λ (u : NameMap Bool). u.entry k) (sym e1);
              more = λ k e. r.more k (rw (ap (λ (u : NameMap Bool). u.entry k) e1) at e);
            }
      ]
  mark_args-Marked (const t v ∷ rest) used used' h =
      let r = mark_args-Marked rest used used' h in
      record { args = r.args; others = r.others; more = r.more }
  mark_args-Marked (poison t ∷ rest) used used' h =
      let r = mark_args-Marked rest used used' h in
      record { args = r.args; others = r.others; more = r.more }
  mark_args-Marked (symbol t s ∷ rest) used used' h =
      let r = mark_args-Marked rest used used' h in
      record { args = r.args; others = r.others; more = r.more }

  -- What one step of the sweep does.
  record Visited (inst : Inst) (used used' : NameMap Bool) : Type 0 where
    args : used'.entry inst.name ≡ true → ArgsMarked used' (args_of inst.op)
    root : is_root is_inst inst.op ≡ true → used'.entry inst.name ≡ true
    others :
        (k : ℕ)
        → mentions k (args_of inst.op) ≡ false
        → (k == inst.name) ≡ false
        → used'.entry k ≡ used.entry k

  pub got : (used : NameMap Bool) (n : ℕ) (b : Bool) → get used n ≡ some b → used.entry n ≡ b
  unfolding get
  got used n b h = elim (Bool-cases (ltb n used.size)) [
    | inl e ↦ some_eq (rw e at h)
    | inr e ↦ let f : none ≡ some b = rw e at h in cc
  ]

  visit-Visited :
      (inst : Inst) (used used' : NameMap Bool)
      → visit is_inst inst used ≡ some used'
      → Visited inst used used'
  unfolding visit
  visit-Visited inst used used' h =
      let (seen, p, q) = >>=-eq-some (get used inst.name) _ h in
      let s = got used inst.name seen p in
      elim (Bool-cases (seen || is_root is_inst inst.op)) [
        | inl b ↦
            let (used1, u, v) = >>=-eq-some (set used inst.name true) _ (rw b at q) in
            let m = set_true inst.name used used1 u in
            let r = mark_args-Marked (args_of inst.op) used1 used' v in
            record {
              args = λ _. r.args;
              root = λ _. r.more inst.name m.marked;
              others = λ k e f. r.others k e ∙ m.others k f;
            }
        | inr b ↦
            let e : used ≡ used' = some_eq (rw b at q) in
            let (x, y) = either_false seen (is_root is_inst inst.op) b in
            record {
              args = λ k.
                  let z : used'.entry inst.name ≡ false =
                    ap (λ (w : NameMap Bool). w.entry inst.name) (sym e) ∙ s ∙ x in
                  cc;
              root = λ k. cc;
              others = λ k _ _. ap (λ (w : NameMap Bool). w.entry k) (sym e);
            }
      ]

  -- The marks of later instructions stay as they were.
  kept-Closed :
      (inst : Inst) (later : List Inst) (used used' : NameMap Bool)
      → More used used'
      → Visited inst used used'
      → BeforeAll inst later
      → Closed used later
      → Closed used' later
  unfolding BeforeAll Closed
  kept-Closed inst [] used used' h v b c = c
  kept-Closed inst (i ∷ rest) used used' h v (m, n, b) (x, y, c) = (
    (λ e. More-ArgsMarked used used' (args_of i.op) h (x (sym (v.others i.name m n) ∙ e))),
    (λ e. h i.name (y e)),
    kept-Closed inst rest used used' h v b c,
  )

  visit-More :
      (inst : Inst) (used used' : NameMap Bool)
      → visit is_inst inst used ≡ some used'
      → More used used'
  unfolding visit
  visit-More inst used used' h k e =
      let (seen, p, q) = >>=-eq-some (get used inst.name) _ h in
      elim (Bool-cases (seen || is_root is_inst inst.op)) [
        | inl b ↦
            let (used1, u, v) = >>=-eq-some (set used inst.name true) _ (rw b at q) in
            (mark_args-Marked (args_of inst.op) used1 used' v).more k
              ((set_true inst.name used used1 u).more k e)
        | inr b ↦
            let f : used ≡ used' = some_eq (rw b at q) in
            ap (λ (w : NameMap Bool). w.entry k) (sym f) ∙ e
      ]

  visit_insts-Closed :
      (insts : List Inst) (used used' : NameMap Bool)
      → InOrder insts
      → visit_insts is_inst insts used ≡ some used'
      → Closed used' insts
  unfolding visit_insts InOrder Closed
  visit_insts-Closed [] used used' o h = tt
  visit_insts-Closed (inst ∷ rest) used used' (b, o) h =
      let (used1, p, q) = >>=-eq-some (visit_insts is_inst rest used) _ h in
      let v = visit-Visited inst used1 used' q in
      (
        v.args,
        v.root,
        kept-Closed inst rest used1 used' (visit-More inst used1 used' q) v b
            (visit_insts-Closed rest used used1 o p),
      )

  visit_insts-append :
      (xs ys : List Inst) (used used1 used2 : NameMap Bool)
      → visit_insts is_inst ys used ≡ some used1
      → visit_insts is_inst xs used1 ≡ some used2
      → visit_insts is_inst (xs ++ ys) used ≡ some used2
  unfolding visit_insts
  visit_insts-append [] ys used used1 used2 p q = p ∙ q
  visit_insts-append (x ∷ xs) ys used used1 used2 p q =
      let (used3, u, v) = >>=-eq-some (visit_insts is_inst xs used1) _ q in
      rw (visit_insts-append xs ys used used1 used3 p u) v

  visit_blocks-insts :
      (blocks : List Block) (used used' : NameMap Bool)
      → visit_blocks is_inst blocks used ≡ some used'
      → visit_insts is_inst (all_insts blocks) used ≡ some used'
  unfolding visit_blocks all_insts visit_insts
  visit_blocks-insts [] used used' h = h
  visit_blocks-insts (block ∷ rest) used used' h =
      let (used1, p, q) = >>=-eq-some (visit_blocks is_inst rest used) _ h in
      visit_insts-append block.insts (all_insts rest) used used1 used'
        (visit_blocks-insts rest used used1 p) q

  pub visit_blocks-Closed :
      (blocks : List Block) (used used' : NameMap Bool)
      → InOrder (all_insts blocks)
      → visit_blocks is_inst blocks used ≡ some used'
      → Closed used' (all_insts blocks)
  visit_blocks-Closed blocks used used' o h =
      visit_insts-Closed (all_insts blocks) used used' o (visit_blocks-insts blocks used used' h)

  -- A part of the instructions.
  pub append-Closed :
      (used : NameMap Bool) (xs ys : List Inst)
      → Closed used (xs ++ ys)
      → Closed used xs × Closed used ys
  unfolding Closed
  append-Closed used [] ys h = (tt, h)
  append-Closed used (x ∷ xs) ys (a, b, c) =
      let (p, q) = append-Closed used xs ys c in ((a, b, p), q)
