-- ===== src/Passes/Ranges.antt =====
-- `DeadStoreElim` (jitir.tmpl.hpp) stays in range.

use metajit_cpp.Ir.{Op, load_inst, store_inst, call_inst, Inst, NameMap, set}
use metajit_cpp.Word.Signed.{negsuc}
use metajit_cpp.Passes.DeadStore.{
  Sweep, find_store, keep_all, replace, visit_op, visit, visit_insts,
}
use metajit_cpp.Passes.Marks.{loaded, visit-loaded}
use metajit_cpp.Base.{
  ℕ, suc, Bool, true, false, ◌==◌, ltb, List, [], ◌∷◌, Option, none, some, some_eq, if◌then◌else◌,
  ◌≡◌, refl, sym, ap, ◌∙◌, inl, inr, Bool-cases,
}

-- The names of instructions, and of the last stores, are in range.
unfoldable pub Named : ℕ → List Inst → Type 0
Named size [] = Unit {0}
Named size (inst ∷ rest) = (ltb inst.name size ≡ true) × Named size rest

unfoldable pub Below : ℕ → List (ℕ × ℕ) → Type 0
Below size [] = Unit {0}
Below size ((g, n) ∷ rest) = (ltb n size ≡ true) × Below size rest

set-some :
    (u : NameMap Bool) (size n : ℕ) (b : Bool)
    → u.size ≡ size
    → ltb n size ≡ true
    → (u' : NameMap Bool) × (set u n b ≡ some u') × (u'.size ≡ size)
unfolding set
set-some u size n b e l =
    let l' : ltb n u.size ≡ true = ap (ltb n) e ∙ l in
    (record u { entry = λ k. if k == n then b else u.entry k }, rw l' refl, e)

pub keep_all-some :
    (ls : List (ℕ × ℕ)) (u : NameMap Bool) (size : ℕ)
    → u.size ≡ size
    → Below size ls
    → (u' : NameMap Bool) × (keep_all ls u ≡ some u') × (u'.size ≡ size)
unfolding keep_all Below
keep_all-some [] u size e l = (u, refl, e)
keep_all-some ((g, n) ∷ rest) u size e (l, below) =
    let (w, p, e') = set-some u size n false e l in
    let (u', q, e'') = keep_all-some rest w size e' below in (u', rw p q, e'')

find-Below :
    (ls : List (ℕ × ℕ)) (size k n : ℕ)
    → Below size ls
    → find_store ls k ≡ some n
    → ltb n size ≡ true
unfolding find_store Below
find-Below [] size k n l h = cc
find-Below ((g, m) ∷ rest) size k n (l, below) h = elim (Bool-cases (g == k)) [
  | inl b ↦ let e : m ≡ n = some_eq (rw b at h) in rw (sym e) l
  | inr b ↦ find-Below rest size k n below (rw b at h)
]

replace-Below :
    (ls : List (ℕ × ℕ)) (size k n : ℕ)
    → ltb n size ≡ true
    → Below size ls
    → Below size (replace ls k n)
unfolding replace Below
replace-Below [] size k n l below = (l, tt)
replace-Below ((g, m) ∷ rest) size k n l (i, below) = elim (Bool-cases (g == k)) [
  | inl b ↦ rw b (l, below)
  | inr b ↦ rw b (i, replace-Below rest size k n l below)
]

pub record Ready (size : ℕ) (s : Sweep) : Type 0 where
  pub in_range : s.unused.size ≡ size
  pub last : Below size s.last_store

loaded-some :
    (s : Sweep) (size : ℕ) (found : Option ℕ)
    → Ready size s
    → ((n : ℕ) → found ≡ some n → ltb n size ≡ true)
    → (s' : Sweep) × (loaded s found ≡ some s') × Ready size s'
unfolding loaded
loaded-some s size none r l = (s, refl, r)
loaded-some s size (some n) r l =
    let (w, p, e) = set-some s.unused size n false r.in_range (l n refl) in
    (record s { unused = w }, rw p refl, record { in_range = e; last = r.last })

visit_op-some :
    (name : ℕ) (op : Op) (s : Sweep) (size : ℕ)
    → ltb name size ≡ true
    → Ready size s
    → (s' : Sweep) × (visit_op name op s ≡ some s') × Ready size s'
unfolding visit_op Below
visit_op-some name (store_inst p v (negsuc g) offset) s size l r =
    let (w, q, e) = set-some s.unused size name true r.in_range l in
    (
      record { unused = w; last_store = replace s.last_store (suc g) name },
      rw q refl,
      record { in_range = e; last = replace-Below s.last_store size (suc g) name l r.last },
    )
visit_op-some name (load_inst p (negsuc g) offset) s size l r =
    let (s', q, r') =
      loaded-some s size (find_store s.last_store (suc g)) r
        (λ n e. find-Below s.last_store size (suc g) n r.last e) in
    (s', (visit-loaded name p g offset s ∙ q), r')
visit_op-some name (call_inst f vs) s size l r =
    let (w, q, e) = keep_all-some s.last_store s.unused size r.in_range r.last in
    (record { unused = w; last_store = [] }, rw q refl, record { in_range = e; last = tt })
visit_op-some name _ s size l r = (s, refl, r)

pub visit_insts-some :
    (insts : List Inst) (s : Sweep) (size : ℕ)
    → Named size insts
    → Ready size s
    → (s' : Sweep) × (visit_insts insts s ≡ some s') × Ready size s'
unfolding visit_insts visit Named
visit_insts-some [] s size l r = (s, refl, r)
visit_insts-some (inst ∷ rest) s size (l, named) r =
    let (w, p, r') = visit_op-some inst.name inst.op s size l r in
    let (s', q, r'') = visit_insts-some rest w size named r' in (s', rw p q, r'')
