-- ===== src/Passes/Held.antt =====
-- The last stores of `DeadStoreElim` (jitir.tmpl.hpp) that hold a name.
use mathlib.Core.Path.{subst}
use metajit_cpp.Ir.{Value, Op, load_inst, store_inst, call_inst, NameMap, set}
use metajit_cpp.Word.Signed.{negsuc}
use metajit_cpp.Folding.Checked.{both_true}
use metajit_cpp.Passes.DeadStore.{Sweep, find_store, keep_all, replace, visit_op}
use metajit_cpp.Passes.Marks.{set_entry, suc_test, was_not, loaded, visit-loaded}
use metajit_cpp.Passes.Overwritten.{overwritten_op}
use metajit_cpp.Base.{
  ℕ, suc, Bool, true, false, not, ◌==◌, List, [], ◌∷◌, Option, none, some, >>=-eq-some, some_eq,
  ◌≡◌, refl, sym, ap, ◌∙◌, ◌⊎◌, inl, inr, ==→eq, eq→==, Bool-cases,
}

-- No entry is the store `n`.
unfoldable pub Free : ℕ → List (ℕ × ℕ) → Type 0
Free n [] = Unit {0}
Free n ((h, m) ∷ rest) = ((n == m) ≡ false) × Free n rest

-- Only the entry of the index `k` may be the store `n`.
unfoldable pub Held : ℕ → ℕ → List (ℕ × ℕ) → Type 0
unfolding Free
Held k n [] = ⊥
Held k n ((h, m) ∷ rest) =
    (((h == k) ≡ true) × Free n rest) ⊎ (((h == k) ≡ false) × ((n == m) ≡ false) × Held k n rest)

replace-Free :
    (ls : List (ℕ × ℕ)) (k n m : ℕ) → (n == m) ≡ false → Free n ls → Free n (replace ls k m)
unfolding replace Free
replace-Free [] k n m d f = (d, tt)
replace-Free ((h, i) ∷ rest) k n m d (e, f) = elim (Bool-cases (h == k)) [
  | inl b ↦ rw b (d, f)
  | inr b ↦ rw b (e, replace-Free rest k n m d f)
]

pub replace-Held_new : (ls : List (ℕ × ℕ)) (k n : ℕ) → Free n ls → Held k n (replace ls k n)
unfolding replace Free Held
replace-Held_new [] k n f = inl (eq→== k k refl, tt)
replace-Held_new ((h, i) ∷ rest) k n (e, f) = elim (Bool-cases (h == k)) [
  | inl b ↦ rw b (inl (eq→== k k refl, f))
  | inr b ↦ rw b (inr (b, e, replace-Held_new rest k n f))
]

replace-Held_over :
    (ls : List (ℕ × ℕ)) (k n m : ℕ) → (n == m) ≡ false → Held k n ls → Free n (replace ls k m)
unfolding replace Free Held
replace-Held_over [] k n m d f = elim f [ ]
replace-Held_over ((h, i) ∷ rest) k n m d (inl (b, f)) = rw b (d, f)
replace-Held_over ((h, i) ∷ rest) k n m d (inr (b, e, f)) =
    rw b (e, replace-Held_over rest k n m d f)

replace-Held_other :
    (ls : List (ℕ × ℕ)) (k l n m : ℕ)
    → (l == k) ≡ false
    → (n == m) ≡ false
    → Held k n ls
    → Held k n (replace ls l m)
unfolding replace Free Held
replace-Held_other [] k l n m c d f = elim f [ ]
replace-Held_other ((h, i) ∷ rest) k l n m c d (inl (b, f)) = elim (Bool-cases (h == l)) [
  | inl e ↦ let j = ==→eq h l e in let g : (l == k) ≡ true = rw j at b in cc
  | inr e ↦ rw e (inl (b, replace-Free rest l n m d f))
]
replace-Held_other ((h, i) ∷ rest) k l n m c d (inr (b, a, f)) = elim (Bool-cases (h == l)) [
  | inl e ↦ rw e (inr (c, d, f))
  | inr e ↦ rw e (inr (b, a, replace-Held_other rest k l n m c d f))
]

find-Free :
    (ls : List (ℕ × ℕ)) (k n m : ℕ) → Free n ls → find_store ls k ≡ some m → (n == m) ≡ false
unfolding Free find_store
find-Free [] k n m f h = cc
find-Free ((i, j) ∷ rest) k n m (e, f) h = elim (Bool-cases (i == k)) [
  | inl b ↦ let g : j ≡ m = some_eq (rw b at h) in rw (sym g) e
  | inr b ↦ find-Free rest k n m f (rw b at h)
]

find-Held :
    (ls : List (ℕ × ℕ)) (k l n m : ℕ)
    → (l == k) ≡ false
    → Held k n ls
    → find_store ls l ≡ some m
    → (n == m) ≡ false
unfolding Free Held find_store
find-Held [] k l n m c f h = elim f [ ]
find-Held ((i, j) ∷ rest) k l n m c (inl (b, f)) h = elim (Bool-cases (i == l)) [
  | inl e ↦ let q = ==→eq i l e in let g : (l == k) ≡ true = rw q at b in cc
  | inr e ↦ find-Free rest l n m f (rw e at h)
]
find-Held ((i, j) ∷ rest) k l n m c (inr (b, a, f)) h = elim (Bool-cases (i == l)) [
  | inl e ↦ let g : j ≡ m = some_eq (rw e at h) in rw (sym g) a
  | inr e ↦ find-Held rest k l n m c f (rw e at h)
]

pub keep_all-Free :
    (ls : List (ℕ × ℕ)) (u u' : NameMap Bool) (n : ℕ)
    → keep_all ls u ≡ some u'
    → Free n ls
    → u'.entry n ≡ u.entry n
unfolding keep_all Free
keep_all-Free [] u u' n h f = ap (λ (w : NameMap Bool). w.entry n) (sym (some_eq h))
keep_all-Free ((g, k) ∷ rest) u u' n h (e, f) =
    let (w, p, q) = >>=-eq-some (set u k false) _ h in
    let i : w.entry n ≡ u.entry n = rw e at (set_entry u w k n false p) in
    keep_all-Free rest w u' n q f ∙ i

loaded-same :
    (s s' : Sweep) (n : ℕ) (found : Option ℕ)
    → loaded s found ≡ some s'
    → ((m : ℕ) → found ≡ some m → (n == m) ≡ false)
    → s'.unused.entry n ≡ s.unused.entry n
unfolding loaded
loaded-same s s' n none h d = ap (λ (t : Sweep). t.unused.entry n) (sym (some_eq h))
loaded-same s s' n (some m) h d =
    let (w, q, r) = >>=-eq-some (set s.unused m false) _ h in
    let i : w.entry n ≡ s.unused.entry n = rw (d m refl) at (set_entry s.unused w m n false q) in
    ap (λ (t : Sweep). t.unused.entry n) (sym (some_eq r)) ∙ i

loaded-last :
    (s s' : Sweep) (found : Option ℕ) → loaded s found ≡ some s' → s'.last_store ≡ s.last_store
unfolding loaded
loaded-last s s' none h = ap (λ (t : Sweep). t.last_store) (sym (some_eq h))
loaded-last s s' (some m) h =
    let (w, q, r) = >>=-eq-some (set s.unused m false) _ h in
    ap (λ (t : Sweep). t.last_store) (sym (some_eq r))

pub record Steady (n : ℕ) (P : List (ℕ × ℕ) → Type 0) (s s' : Sweep) : Type 0 where
  pub last : P s'.last_store
  pub same : s'.unused.entry n ≡ s.unused.entry n

stored-Steady :
    (n name g : ℕ) (P : List (ℕ × ℕ) → Type 0) (s s' : Sweep) (p v : Value) (offset : ℕ)
    → visit_op name (store_inst p v (negsuc g) offset) s ≡ some s'
    → (n == name) ≡ false
    → P (replace s.last_store (suc g) name)
    → Steady n P s s'
unfolding visit_op
stored-Steady n name g P s s' p v offset h d f =
    let (w, q, r) = >>=-eq-some (set s.unused name true) _ h in
    let i : w.entry n ≡ s.unused.entry n = rw d at (set_entry s.unused w name n true q) in
    record {
      last = subst (λ (t : Sweep). P t.last_store) (some_eq r) f;
      same = ap (λ (t : Sweep). t.unused.entry n) (sym (some_eq r)) ∙ i;
    }

loaded-Steady :
    (n name g : ℕ) (P : List (ℕ × ℕ) → Type 0) (s s' : Sweep) (p : Value) (offset : ℕ)
    → visit_op name (load_inst p (negsuc g) offset) s ≡ some s'
    → ((m : ℕ) → find_store s.last_store (suc g) ≡ some m → (n == m) ≡ false)
    → P s.last_store
    → Steady n P s s'
loaded-Steady n name g P s s' p offset h d f =
    let l = sym (visit-loaded name p g offset s) ∙ h in
    record {
      last = subst P (sym (loaded-last s s' (find_store s.last_store (suc g)) l)) f;
      same = loaded-same s s' n (find_store s.last_store (suc g)) l d;
    }

pub visit_op-Free :
    (name : ℕ) (op : Op) (s s' : Sweep) (n : ℕ)
    → visit_op name op s ≡ some s'
    → (n == name) ≡ false
    → Free n s.last_store
    → Steady n (Free n) s s'
unfolding visit_op Free
visit_op-Free name (store_inst p v (negsuc g) offset) s s' n h d f =
    stored-Steady n name g (Free n) s s' p v offset h d
      (replace-Free s.last_store (suc g) n name d f)
visit_op-Free name (load_inst p (negsuc g) offset) s s' n h d f =
    loaded-Steady n name g (Free n) s s' p offset h (λ m e. find-Free s.last_store (suc g) n m f e)
      f
visit_op-Free name (call_inst c vs) s s' n h d f =
    let (w, q, r) = >>=-eq-some (keep_all s.last_store s.unused) _ h in
    record {
      last = subst (λ (t : Sweep). Free n t.last_store) (some_eq r) tt;
      same =
          ap (λ (t : Sweep). t.unused.entry n) (sym (some_eq r))
          ∙ keep_all-Free s.last_store s.unused w n q f;
    }
visit_op-Free name _ s s' n h d f = record {
  last = subst (λ (t : Sweep). Free n t.last_store) (some_eq h) f;
  same = ap (λ (t : Sweep). t.unused.entry n) (sym (some_eq h));
}

pub visit_op-Held :
    (name : ℕ) (op : Op) (s s' : Sweep) (g n : ℕ) (later : Bool)
    → visit_op name op s ≡ some s'
    → (n == name) ≡ false
    → Held (suc g) n s.last_store
    → overwritten_op g op later ≡ true
    → Steady n (Free n) s s' ⊎ (Steady n (Held (suc g) n) s s' × (later ≡ true))
unfolding visit_op overwritten_op
visit_op-Held name (store_inst p v (negsuc h) offset) s s' g n later e d f o =
    elim (Bool-cases (h == g)) [
      | inl b ↦
          let i = ==→eq h g b in
          let f' : Held (suc h) n s.last_store =
            subst (λ j. Held (suc j) n s.last_store) (sym i) f in
          inl (
            stored-Steady n name h (Free n) s s' p v offset e d
              (replace-Held_over s.last_store (suc h) n name d f'))
      | inr b ↦ inr (
        (stored-Steady n name h (Held (suc g) n) s s' p v offset e d
            (replace-Held_other s.last_store (suc g) (suc h) n name (suc_test h g ∙ b) d f)),
        rw b at o,
      )
    ]
visit_op-Held name (load_inst p (negsuc h) offset) s s' g n later e d f o =
    let (a, c) = both_true {x = not (h == g)} o in
    inr (
      (loaded-Steady n name h (Held (suc g) n) s s' p offset e
          (λ m q. find-Held s.last_store (suc g) (suc h) n m (suc_test h g ∙ was_not a) f q) f),
      c,
    )
visit_op-Held name (call_inst c vs) s s' g n later e d f o = cc
visit_op-Held name _ s s' g n later e d f o = inr (
  record {
    last = subst (λ (t : Sweep). Held (suc g) n t.last_store) (some_eq e) f;
    same = ap (λ (t : Sweep). t.unused.entry n) (sym (some_eq e));
  },
  o,
)
