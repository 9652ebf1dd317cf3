-- ===== src/Passes/Simulation.antt =====
-- Runs of the interpreter on a body before and after `DeadCodeElim` (jitir.tmpl.hpp).
use mathlib.Core.Path.{subst}
use metajit_cpp.Ir.{Inst, Block, NameMap, get}
use metajit_cpp.Interpreter.Machine.{
  Machine, Event, none_event, Host, step_inst, step_at, step, run_for, is_exit,
}
use metajit_cpp.Passes.DeadCode.{is_root, visit_blocks, filter_used}
use metajit_cpp.Passes.Closed.{Closed, got, InOrder, all_insts, visit_blocks-Closed, append-Closed}
use metajit_cpp.Base.{
  ℕ, suc, Bool, true, false, List, [], ◌∷◌, ◌++◌, Option, some, ◌>>=◌, >>=-eq-some, some_eq, ◌≡◌,
  refl, sym, ap, ◌∙◌, length, Bool-cases, inl, inr,
}
use metajit_cpp.Passes.Stepped.{is_alloca, BodyOf, Same, live_step, dead_step}

module _ (is_inst : ℕ → Bool) (used : NameMap Bool) where
  module _ (host : Host) (blocks : List Block) (tail tail' : List Inst) where
    record Ended (s s' : Machine × Event) : Type 0 where
      same : Same is_inst used s.0 s'.0
      insts : s.0.insts ≡ tail
      insts' : s'.0.insts ≡ tail'
      event : s.1 ≡ none_event
      event' : s'.1 ≡ none_event

    abbrev next : ℕ → Option (Machine × Event) → Option (Machine × Event)
    next n o = o >>= λ stepped. elim (is_exit stepped.1) [
      | true ↦ some stepped
      | false ↦ run_for host blocks n stepped.0
    ]

    goes_on :
        (n : ℕ) (t s : Machine × Event)
        → t.1 ≡ none_event
        → next n (some t) ≡ run_for host blocks n t.0
    unfolding is_exit
    goes_on n t s e = rw e refl

    run_first :
        (inst : Inst) (rest : List Inst) (n : ℕ) (m : Machine) (s t : Machine × Event)
        → m.insts ≡ inst ∷ rest
        → step_inst host blocks inst inst.op rest m ≡ some t
        → t.1 ≡ none_event
        → run_for host blocks n t.0 ≡ some s
        → run_for host blocks (suc n) m ≡ some s
    unfolding run_for step step_at is_exit
    run_first inst rest n m s t p q e r =
        let first : step_at host blocks m.insts m ≡ some t =
          ap (λ l. step_at host blocks l m) p ∙ q in
        ap (next n) first ∙ goes_on n t s e ∙ r

    run_rest :
        (inst : Inst) (rest : List Inst) (n : ℕ) (m : Machine) (s : Machine × Event)
        → m.insts ≡ inst ∷ rest
        → run_for host blocks (suc n) m ≡ some s
        → (t : Machine × Event) × (step_inst host blocks inst inst.op rest m ≡ some t)
          × (t.1 ≡ none_event → run_for host blocks n t.0 ≡ some s)
    unfolding run_for step step_at is_exit
    run_rest inst rest n m s p h =
        let first : step_at host blocks m.insts m ≡ step_inst host blocks inst inst.op rest m =
          ap (λ l. step_at host blocks l m) p in
        let (t, u, v) =
          >>=-eq-some (step_inst host blocks inst inst.op rest m)
            (λ stepped. elim (is_exit stepped.1) [
              | true ↦ some stepped
              | false ↦ run_for host blocks n stepped.0
            ])
            (sym (ap (next n) first) ∙ h) in
        (t, u, (λ e. sym (goes_on n t s e) ∙ v))

    unset : {n : ℕ} (c : Bool) → (c ≡ true → used.entry n ≡ true) → used.entry n ≡ false → c ≡ false
    unset true k d = let e = k refl in cc
    unset false k d = refl

    -- The run of a body and of what is left of it.
    simulated :
        (insts kept : List Inst) (m m' : Machine) (s : Machine × Event)
        → BodyOf is_inst used insts
        → Closed is_inst used insts
        → filter_used is_inst used insts ≡ some kept
        → m.insts ≡ insts ++ tail
        → m'.insts ≡ kept ++ tail'
        → Same is_inst used m m'
        → run_for host blocks (length insts) m ≡ some s
        → (s' : Machine × Event) × (run_for host blocks (length kept) m' ≡ some s') × Ended s s'
    unfolding BodyOf Closed filter_used
    simulated [] kept m m' s b c f i i' h r =
        let e : [] ≡ kept = some_eq f in
        let e' : kept ++ tail' ≡ tail' = ap (λ l. l ++ tail') (sym e) in
        let w : Machine × Event = (m', none_event) in
        let w0 : Machine × Event = (m, none_event) in
        let r0 : some w0 ≡ some s = unfold run_for in r in
        (
          w,
          rw (sym e) (unfold run_for in refl),
          subst (λ z. Ended z w) (some_eq r0)
              record { same = h; insts = i; insts' = i' ∙ e'; event = refl; event' = refl },
        )
    simulated (inst ∷ rest) kept m m' s (i0, t0, a0, b) (g, k, c) f i i' h r =
        let (live, p, q) = >>=-eq-some (get used inst.name) _ f in
        let (others, u, v) = >>=-eq-some (filter_used is_inst used rest) _ q in
        let (t, x, y) = run_rest inst (rest ++ tail) (length rest) m s i r in
        let z = got is_inst used inst.name live p in
        elim (Bool-cases live) [
          | inl l ↦
              let e : inst ∷ others ≡ kept = some_eq (rw l at v) in
              let j : m'.insts ≡ inst ∷ (others ++ tail') = i' ∙ ap (λ w. w ++ tail') (sym e) in
              let (t', x', st) =
                live_step is_inst used host blocks inst (rest ++ tail) (others ++ tail') m m' h
                  inst.op t t0 (g (z ∙ l)) x in
              let (s', r', en) =
                simulated rest others t.0 t'.0 s b c u st.insts st.insts' st.same (y st.event) in
              (
                s',
                ap (λ w. run_for host blocks (length w) m') (sym e)
                    ∙ run_first inst (others ++ tail') (length others) m' s' t' j x' st.event' r',
                en,
              )
          | inr l ↦
              let e : others ≡ kept = some_eq (rw l at v) in
              let d : used.entry inst.name ≡ false = z ∙ l in
              let (same, ins, ev) =
                dead_step is_inst used host blocks inst (rest ++ tail) (kept ++ tail') m m' h i0 d
                  inst.op t (unset (is_root is_inst inst.op) k d) (unset (is_alloca inst.op) a0 d)
                  x in
              simulated rest kept t.0 m' s b c (u ∙ ap some e) ins i' same (y ev)
        ]

-- The marks before the pass.
abbrev pub unmarked_names : ℕ → NameMap Bool
unmarked_names size = record { size = size; entry = λ n. false }

-- Dead code elimination keeps what a body does. Let the values of a section have names of their
-- own and be defined before their uses in the order of the blocks, let `used` be the marks of the
-- sweep over the section, and let `kept` be what the filter leaves of a body, a run of
-- instructions of one block before its terminator whose unmarked instructions allocate no storage.
-- If two machines have the same memory, storage, arguments and marked values, one before the body
-- and one before `kept`, and the interpreter runs the first through the body, then it runs the
-- second through `kept`, and afterwards they have the same memory, storage, arguments and marked
-- values, each before the instructions that follow.
pub dead_code_elim-simulates :
    (is_inst : ℕ → Bool) (size : ℕ) (used : NameMap Bool) (section : List Block)
    (front body back kept tail tail' : List Inst) (host : Host) (m m' : Machine)
    (s : Machine × Event)
    → InOrder (all_insts section)
    → visit_blocks is_inst section (unmarked_names size) ≡ some used
    → all_insts section ≡ front ++ (body ++ back)
    → BodyOf is_inst used body
    → filter_used is_inst used body ≡ some kept
    → m.insts ≡ body ++ tail
    → m'.insts ≡ kept ++ tail'
    → Same is_inst used m m'
    → run_for host section (length body) m ≡ some s
    → (s' : Machine × Event) × (run_for host section (length kept) m' ≡ some s')
      × Same is_inst used s.0 s'.0
      × (s.0.insts ≡ tail)
      × (s'.0.insts ≡ tail')
dead_code_elim-simulates is_inst size used section front body back kept tail tail' host m m' s o v e
      b f i i' h r =
    let c =
      subst (Closed is_inst used) e
        (visit_blocks-Closed is_inst section (unmarked_names size) used o v) in
    let c1 = (append-Closed is_inst used front (body ++ back) c).1 in
    let c2 = (append-Closed is_inst used body back c1).0 in
    let (s', r', en) =
      simulated is_inst used host section tail tail' body kept m m' s b c2 f i i' h r in
    (s', r', en.same, en.insts, en.insts')
