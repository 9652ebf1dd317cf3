-- ===== src/Passes/Kept.antt =====
-- When a store that is overwritten is marked by `DeadStoreElim` (jitir.tmpl.hpp).
use mathlib.Core.Path.{subst}
use metajit_cpp.Ir.{Op, store_inst, Inst, NameMap, set}
use metajit_cpp.Word.Signed.{negsuc}
use metajit_cpp.Folding.Checked.{both_true}
use metajit_cpp.Passes.DeadStore.{Sweep, visit_op, visit, visit_insts}
use metajit_cpp.Passes.Marks.{set_entry, was_not}
use metajit_cpp.Passes.Overwritten.{overwritten, dead_op, is_dead_store, absent, Distinct, Swept}
use metajit_cpp.Passes.Held.{
  Free, Held, replace-Held_new, keep_all-Free, visit_op-Free, visit_op-Held,
}
use metajit_cpp.Base.{
  ℕ, suc, Bool, true, not, ◌==◌, List, [], ◌∷◌, some, >>=-eq-some, some_eq, ◌≡◌, refl, sym, ap, ◌∙◌,
  inl, inr, ==→eq, eq→==, Bool-cases,
}

pub visit_insts-Free :
    (insts : List Inst) (s : Sweep) (u' : NameMap Bool) (n : ℕ)
    → Swept insts s u'
    → absent n insts ≡ true
    → Free n s.last_store
    → u'.entry n ≡ s.unused.entry n
unfolding visit_insts visit absent Swept
visit_insts-Free [] s u' n (s', h, k) a f =
    let i : s ≡ s' = some_eq h in
    let f' : Free n s'.last_store = subst (λ (t : Sweep). Free n t.last_store) i f in
    keep_all-Free s'.last_store s'.unused u' n k f' ∙ ap (λ (t : Sweep). t.unused.entry n) (sym i)
visit_insts-Free (inst ∷ rest) s u' n (s', h, k) a f =
    let (w, p, q) = >>=-eq-some (visit_op inst.name inst.op s) _ h in
    let (b, c) = both_true {x = not (n == inst.name)} a in
    let st = visit_op-Free inst.name inst.op s w n p (was_not b) f in
    visit_insts-Free rest w u' n (s', q, k) c st.last ∙ st.same

visit_insts-Held :
    (insts : List Inst) (s : Sweep) (u' : NameMap Bool) (g n : ℕ)
    → Swept insts s u'
    → absent n insts ≡ true
    → Held (suc g) n s.last_store
    → overwritten g insts ≡ true
    → u'.entry n ≡ s.unused.entry n
unfolding visit_insts visit absent overwritten Swept
visit_insts-Held [] s u' g n (s', h, k) a f o = cc
visit_insts-Held (inst ∷ rest) s u' g n (s', h, k) a f o =
    let (w, p, q) = >>=-eq-some (visit_op inst.name inst.op s) _ h in
    let (b, c) = both_true {x = not (n == inst.name)} a in
    elim (visit_op-Held inst.name inst.op s w g n (overwritten g rest) p (was_not b) f o) [
      | inl st ↦ visit_insts-Free rest w u' n (s', q, k) c st.last ∙ st.same
      | inr (st, o') ↦ visit_insts-Held rest w u' g n (s', q, k) c st.last o' ∙ st.same
    ]

-- The store `n` itself.
marked_store :
    (op : Op) (s w : Sweep) (u' : NameMap Bool) (n : ℕ) (rest : List Inst)
    → visit_op n op s ≡ some w
    → Swept rest w u'
    → absent n rest ≡ true
    → Free n s.last_store
    → dead_op op rest ≡ true
    → u'.entry n ≡ true
unfolding visit_op dead_op
marked_store (store_inst p v (negsuc g) offset) s w u' n rest h sw a f o =
    let (u, q, r) = >>=-eq-some (set s.unused n true) _ h in
    let i : u.entry n ≡ true = rw (eq→== n n refl) at (set_entry s.unused u n n true q) in
    let j : w.unused.entry n ≡ true = ap (λ (t : Sweep). t.unused.entry n) (sym (some_eq r)) ∙ i in
    let l : Held (suc g) n w.last_store =
      subst (λ (t : Sweep). Held (suc g) n t.last_store) (some_eq r)
        (replace-Held_new s.last_store (suc g) n f) in
    visit_insts-Held rest w u' g n sw a l o ∙ j
marked_store _ s w u' n rest h sw a f o = cc

pub visit_insts-marks :
    (insts : List Inst) (s : Sweep) (u' : NameMap Bool) (n : ℕ)
    → Swept insts s u'
    → Distinct insts
    → Free n s.last_store
    → is_dead_store n insts ≡ true
    → u'.entry n ≡ true
unfolding visit_insts visit Distinct is_dead_store Swept
visit_insts-marks [] s u' n (s', h, k) d f o = cc
visit_insts-marks (inst ∷ rest) s u' n (s', h, k) (a, d) f o =
    let (w, p, q) = >>=-eq-some (visit_op inst.name inst.op s) _ h in
    elim (Bool-cases (n == inst.name)) [
      | inl b ↦
          let i = ==→eq n inst.name b in
          let p' = ap (λ m. visit_op m inst.op s) i ∙ p in
          marked_store inst.op s w u' n rest p' (s', q, k) (ap (λ m. absent m rest) i ∙ a) f
            (rw b at o)
      | inr b ↦
          let st = visit_op-Free inst.name inst.op s w n p b f in
          visit_insts-marks rest w u' n (s', q, k) d st.last (rw b at o)
    ]
