-- ===== src/Passes/Overwritten.antt =====
-- When a store that `DeadStoreElim` (jitir.tmpl.hpp) marks is overwritten.

use metajit_cpp.Ir.{Op, load_inst, store_inst, call_inst, Inst, NameMap, set}
use metajit_cpp.Word.Signed.{negsuc}
use metajit_cpp.Folding.Checked.{both_true}
use metajit_cpp.Passes.DeadStore.{
  Sweep, find_store, keep_all, replace, visit_op, visit, visit_insts,
}
use metajit_cpp.Passes.Marks.{
  keep_all-clears, keep_all-found, find-replace, suc_test, was_not, loaded, loaded-found,
  loaded-kept, loaded-stays, visit-loaded, visit_op-stays,
}
use metajit_cpp.Base.{
  ℕ, suc, Bool, true, false, not, ◌&&◌, ◌||◌, ◌==◌, List, [], ◌∷◌, some, >>=-eq-some, some_eq,
  if◌then◌else◌, ◌≡◌, refl, sym, ap, ◌∙◌, ◌⊎◌, inl, inr, ==→eq, eq→==, Bool-cases,
}

-- A store to the exact group `g` comes before any call and any load of the group.
unfoldable pub overwritten_op : ℕ → Op → Bool → Bool
overwritten_op g (store_inst p v (negsuc h) offset) later = h == g || later
overwritten_op g (load_inst p (negsuc h) offset) later = not (h == g) && later
overwritten_op g (call_inst f vs) later = false
overwritten_op g op later = later

unfoldable pub overwritten : ℕ → List Inst → Bool
unfolding overwritten_op
overwritten g [] = false
overwritten g (inst ∷ rest) = overwritten_op g inst.op (overwritten g rest)

-- The instruction with the name `n` is such a store, and is overwritten.
unfoldable pub dead_op : Op → List Inst → Bool
unfolding overwritten
dead_op (store_inst p v (negsuc g) offset) rest = overwritten g rest
dead_op op rest = false

unfoldable pub is_dead_store : ℕ → List Inst → Bool
unfolding dead_op
is_dead_store n [] = false
is_dead_store n (inst ∷ rest) =
    let later = is_dead_store n rest in if n == inst.name then dead_op inst.op rest else later

unfoldable pub absent : ℕ → List Inst → Bool
absent n [] = true
absent n (inst ∷ rest) = not (n == inst.name) && absent n rest

unfoldable pub Distinct : List Inst → Type 0
unfolding absent
Distinct [] = Unit {0}
Distinct (inst ∷ rest) = (absent inst.name rest ≡ true) × Distinct rest

-- The mark of a name at the end of a block, after the last stores are kept.
unfoldable pub Swept : List Inst → Sweep → NameMap Bool → Type 0
Swept insts s u' =
    (s' : Sweep) × (visit_insts insts s ≡ some s') × (keep_all s'.last_store s'.unused ≡ some u')

pub visit_insts-stays :
    (insts : List Inst) (s : Sweep) (u' : NameMap Bool) (n : ℕ)
    → Swept insts s u'
    → absent n insts ≡ true
    → s.unused.entry n ≡ false
    → u'.entry n ≡ false
unfolding visit_insts visit absent Swept
visit_insts-stays [] s u' n (s', h, k) a e =
    let f : s.unused.entry n ≡ s'.unused.entry n =
      ap (λ (t : Sweep). t.unused.entry n) (some_eq h) in
    keep_all-clears s'.last_store s'.unused u' n k (sym f ∙ e)
visit_insts-stays (inst ∷ rest) s u' n (s', h, k) a e =
    let (w, p, q) = >>=-eq-some (visit_op inst.name inst.op s) _ h in
    let (b, c) = both_true a in
    visit_insts-stays rest w u' n (s', q, k) c
      (visit_op-stays inst.name inst.op s w n p (was_not b) e)

-- After one instruction a store that was the last of its group is overwritten, is not marked, or
-- is still the last of its group.
visit_op-pending :
    (name : ℕ) (op : Op) (s s' : Sweep) (g n : ℕ) (later : Bool)
    → visit_op name op s ≡ some s'
    → find_store s.last_store (suc g) ≡ some n
    → (overwritten_op g op later ≡ true)
      ⊎ (s'.unused.entry n ≡ false)
      ⊎ ((find_store s'.last_store (suc g) ≡ some n) × (overwritten_op g op later ≡ later))
unfolding visit_op overwritten_op
visit_op-pending name (store_inst p v (negsuc h) offset) s s' g n later e f =
    let (w, q, r) = >>=-eq-some (set s.unused name true) _ e in
    elim (Bool-cases (h == g)) [
      | inl b ↦ inl (rw b refl)
      | inr b ↦
          let t : find_store (replace s.last_store (suc h) name) (suc g) ≡ some n =
            find-replace s.last_store (suc h) name (suc g) ∙ rw (suc_test h g, b) f in
          inr (
            inr (
              (ap (λ (t : Sweep). find_store t.last_store (suc g)) (sym (some_eq r)) ∙ t),
              rw b refl,
            ))
    ]
visit_op-pending name (load_inst p (negsuc h) offset) s s' g n later e f =
    let e' = sym (visit-loaded name p h offset s) ∙ e in
    elim (Bool-cases (h == g)) [
      | inl b ↦
          let l : loaded s (some n) ≡ some s' =
            sym (ap (loaded s) (ap (λ i. find_store s.last_store (suc i)) (==→eq h g b) ∙ f))
            ∙ e' in
          inr (inl (loaded-found s s' n l))
      | inr b ↦
          inr (inr ((loaded-kept s s' (find_store s.last_store (suc h)) (suc g) e' ∙ f), rw b refl))
    ]
visit_op-pending name (call_inst c vs) s s' g n later e f =
    let (w, q, r) = >>=-eq-some (keep_all s.last_store s.unused) _ e in
    inr (
      inl (
        ap (λ (t : Sweep). t.unused.entry n) (sym (some_eq r))
        ∙ keep_all-found s.last_store s.unused w (suc g) n q f))
visit_op-pending name _ s s' g n later e f =
    inr (inr ((ap (λ (t : Sweep). find_store t.last_store (suc g)) (sym (some_eq e)) ∙ f), refl))

visit_insts-overwritten :
    (insts : List Inst) (s : Sweep) (u' : NameMap Bool) (g n : ℕ)
    → Swept insts s u'
    → absent n insts ≡ true
    → find_store s.last_store (suc g) ≡ some n
    → u'.entry n ≡ true
    → overwritten g insts ≡ true
unfolding visit_insts visit absent overwritten Swept
visit_insts-overwritten [] s u' g n (s', h, k) a f t =
    let i : find_store s.last_store (suc g) ≡ find_store s'.last_store (suc g) =
      ap (λ (t : Sweep). find_store t.last_store (suc g)) (some_eq h) in
    let j : u'.entry n ≡ false =
      keep_all-found s'.last_store s'.unused u' (suc g) n k (sym i ∙ f) in
    cc
visit_insts-overwritten (inst ∷ rest) s u' g n (s', h, k) a f t =
    let (w, p, q) = >>=-eq-some (visit_op inst.name inst.op s) _ h in
    let (b, c) = both_true a in
    elim (visit_op-pending inst.name inst.op s w g n (overwritten g rest) p f) [
      | inl over ↦ over
      | inr (inl gone) ↦
          let j : u'.entry n ≡ false = visit_insts-stays rest w u' n (s', q, k) c gone in cc
      | inr (inr (found, same)) ↦ same ∙ visit_insts-overwritten rest w u' g n (s', q, k) c found t
    ]

-- What the pass makes of the store with the name `n`.
visit_op-marks :
    (op : Op) (s s' : Sweep) (n : ℕ) (rest : List Inst)
    → visit_op n op s ≡ some s'
    → s.unused.entry n ≡ false
    → (s'.unused.entry n ≡ false)
      ⊎ ((g : ℕ) × (find_store s'.last_store (suc g) ≡ some n)
          × (dead_op op rest ≡ overwritten g rest))
unfolding visit_op dead_op
visit_op-marks (store_inst p v (negsuc g) offset) s s' n rest h e =
    let (w, q, r) = >>=-eq-some (set s.unused n true) _ h in
    let b : (g == g) ≡ true = eq→== g g refl in
    let t : find_store (replace s.last_store (suc g) n) (suc g) ≡ some n =
      find-replace s.last_store (suc g) n (suc g) ∙ rw (suc_test g g, b) refl in
    inr (g, (ap (λ (t : Sweep). find_store t.last_store (suc g)) (sym (some_eq r)) ∙ t), refl)
visit_op-marks (load_inst p (negsuc g) offset) s s' n rest h e = inl (
    loaded-stays s s' n (find_store s.last_store (suc g)) (sym (visit-loaded n p g offset s) ∙ h) e)
visit_op-marks (call_inst f vs) s s' n rest h e =
    let (w, q, r) = >>=-eq-some (keep_all s.last_store s.unused) _ h in
    inl (
      ap (λ (t : Sweep). t.unused.entry n) (sym (some_eq r))
      ∙ keep_all-clears s.last_store s.unused w n q e)
visit_op-marks _ s s' n rest h e = inl (ap (λ (t : Sweep). t.unused.entry n) (sym (some_eq h)) ∙ e)

pub visit_insts-dead :
    (insts : List Inst) (s : Sweep) (u' : NameMap Bool) (n : ℕ)
    → Swept insts s u'
    → Distinct insts
    → s.unused.entry n ≡ false
    → u'.entry n ≡ true
    → is_dead_store n insts ≡ true
unfolding visit_insts visit Distinct is_dead_store absent Swept
visit_insts-dead [] s u' n (s', h, k) d e t =
    let j : u'.entry n ≡ false = visit_insts-stays [] s u' n (s', h, k) refl e in cc
visit_insts-dead (inst ∷ rest) s u' n (s', h, k) (a, d) e t =
    let (w, p, q) = >>=-eq-some (visit_op inst.name inst.op s) _ h in
    elim (Bool-cases (n == inst.name)) [
      | inl b ↦ rw b (marked (==→eq n inst.name b) w p q)
      | inr b ↦ rw b (
          visit_insts-dead rest w u' n (s', q, k) d (visit_op-stays inst.name inst.op s w n p b e)
            t)
    ]
  where
    marked :
        (i : n ≡ inst.name) (w : Sweep)
        → visit_op inst.name inst.op s ≡ some w
        → visit_insts rest w ≡ some s'
        → dead_op inst.op rest ≡ true
    marked i w p q =
        let a' : absent n rest ≡ true = rw i a in
        elim (visit_op-marks inst.op s w n rest (ap (λ m. visit_op m inst.op s) i ∙ p) e) [
          | inl gone ↦
              let j : u'.entry n ≡ false = visit_insts-stays rest w u' n (s', q, k) a' gone in cc
          | inr (g, found, same) ↦
              same ∙ visit_insts-overwritten rest w u' g n (s', q, k) a' found t
        ]
