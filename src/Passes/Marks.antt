-- ===== src/Passes/Marks.antt =====
-- The marks and the last stores of `DeadStoreElim` (jitir.tmpl.hpp).
use mathlib.Core.Path.{subst}
use metajit_cpp.Ir.{Value, Op, load_inst, store_inst, call_inst, NameMap, set}
use metajit_cpp.Word.Signed.{negsuc}
use metajit_cpp.Passes.DeadStore.{Sweep, find_store, keep_all, replace, visit_op}
use metajit_cpp.Base.{
  ℕ, suc, Bool, true, false, not, ◌==◌, ltb, List, [], ◌∷◌, Option, none, some, ◌>>=◌, >>=-eq-some,
  some_eq, if◌then◌else◌, ◌≡◌, refl, sym, ap, ◌∙◌, inl, inr, ==→eq, eq→==, Bool-cases, arith,
}

pub set_entry :
    (u u' : NameMap Bool) (n k : ℕ) (b : Bool)
    → set u n b ≡ some u'
    → u'.entry k ≡ (if k == n then b else u.entry k)
unfolding set
set_entry u u' n k b h = elim (Bool-cases (ltb n u.size)) [
  | inl l ↦ ap (λ (w : NameMap Bool). w.entry k) (sym (some_eq (rw l at h)))
  | inr l ↦ let e : none ≡ some u' = rw l at h in cc
]

-- A mark that is taken away.
cleared :
    (u u' : NameMap Bool) (n k : ℕ)
    → set u n false ≡ some u'
    → (u.entry k ≡ false → u'.entry k ≡ false) × (k ≡ n → u'.entry k ≡ false)
cleared u u' n k h =
    let e = set_entry u u' n k false h in
    elim (Bool-cases (k == n)) [
      | inl b ↦ let f : u'.entry k ≡ false = rw b at e in ((λ _. f), (λ _. f))
      | inr b ↦
          let f : u'.entry k ≡ u.entry k = rw b at e in
          ((λ g. f ∙ g), λ g. let q = eq→== k n g in cc)
    ]

pub keep_all-clears :
    (ls : List (ℕ × ℕ)) (u u' : NameMap Bool) (n : ℕ)
    → keep_all ls u ≡ some u'
    → u.entry n ≡ false
    → u'.entry n ≡ false
unfolding keep_all
keep_all-clears [] u u' n h e = ap (λ (w : NameMap Bool). w.entry n) (sym (some_eq h)) ∙ e
keep_all-clears ((g, k) ∷ rest) u u' n h e =
    let (w, p, q) = >>=-eq-some (set u k false) _ h in
    keep_all-clears rest w u' n q ((cleared u w k n p).0 e)

pub keep_all-found :
    (ls : List (ℕ × ℕ)) (u u' : NameMap Bool) (g n : ℕ)
    → keep_all ls u ≡ some u'
    → find_store ls g ≡ some n
    → u'.entry n ≡ false
unfolding keep_all find_store
keep_all-found [] u u' g n h e = cc
keep_all-found ((h0, k) ∷ rest) u u' g n h e =
    let (w, p, q) = >>=-eq-some (set u k false) _ h in
    elim (Bool-cases (h0 == g)) [
      | inl b ↦
          let f : k ≡ n = some_eq (rw b at e) in
          keep_all-clears rest w u' n q ((cleared u w k n p).1 (sym f))
      | inr b ↦ keep_all-found rest w u' g n q (rw b at e)
    ]

pub was_not : {b : Bool} → not b ≡ true → b ≡ false
was_not {b = true} h = cc
was_not {b = false} h = refl

pub suc_test : (h g : ℕ) → (suc h == suc g) ≡ (h == g)
suc_test h g = elim (Bool-cases (h == g)) [
  | inl b ↦ let e = eq→== (suc h) (suc g) (ap suc (==→eq h g b)) in cc
  | inr b ↦ elim (Bool-cases (suc h == suc g)) [
    | inl c ↦ let d = ==→eq (suc h) (suc g) c in let e = eq→== h g (omega arith) in cc
    | inr c ↦ cc
  ]
]

apart : (h g k : ℕ) → (h == g) ≡ false → (h == k) ≡ true → (g == k) ≡ false
apart h g k b c = elim (Bool-cases (g == k)) [
  | inl d ↦ let e = ==→eq h k c in let f = ==→eq g k d in let i = eq→== h g (e ∙ sym f) in cc
  | inr d ↦ d
]

-- A second test of one Boolean.
tested_twice :
    {A : Type 0} (b : Bool) (x y z : A)
    → (if b then x else z) ≡ (if b then x else (if b then y else z))
tested_twice true x y z = refl
tested_twice false x y z = refl

pub find-replace :
    (ls : List (ℕ × ℕ)) (g n k : ℕ)
    → find_store (replace ls g n) k ≡ (if g == k then some n else find_store ls k)
unfolding replace find_store
find-replace [] g n k = refl
find-replace ((h, m) ∷ rest) g n k =
    let found = find_store rest k in
    elim (Bool-cases (h == g)) [
      | inl b ↦ rw b (
          subst
            (λ i.
              (if g == k then some n else found)
              ≡ (if g == k then some n else (if i == k then some m else found)))
            (sym (==→eq h g b)) (tested_twice (g == k) (some n) (some m) found))
      | inr b ↦ elim (Bool-cases (h == k)) [
        | inl c ↦ let d : (g == k) ≡ false = apart h g k b c in rw (b, c, d) refl
        | inr c ↦ rw (b, c) (find-replace rest g n k)
      ]
    ]

-- What a load of an exact group does with the store that it finds.
unfoldable pub loaded : Sweep → Option ℕ → Option Sweep
unfolding set
loaded s none = some s
loaded s (some n) = do unused ← set s.unused n false; some (record s { unused = unused })

pub loaded-stays :
    (s s' : Sweep) (n : ℕ) (found : Option ℕ)
    → loaded s found ≡ some s'
    → s.unused.entry n ≡ false
    → s'.unused.entry n ≡ false
unfolding loaded
loaded-stays s s' n none h e = ap (λ (t : Sweep). t.unused.entry n) (sym (some_eq h)) ∙ e
loaded-stays s s' n (some k) h e =
    let (w, q, r) = >>=-eq-some (set s.unused k false) _ h in
    ap (λ (t : Sweep). t.unused.entry n) (sym (some_eq r)) ∙ (cleared s.unused w k n q).0 e

pub loaded-found : (s s' : Sweep) (n : ℕ) → loaded s (some n) ≡ some s' → s'.unused.entry n ≡ false
unfolding loaded
loaded-found s s' n h =
    let (w, q, r) = >>=-eq-some (set s.unused n false) _ h in
    ap (λ (t : Sweep). t.unused.entry n) (sym (some_eq r)) ∙ (cleared s.unused w n n q).1 refl

pub loaded-kept :
    (s s' : Sweep) (found : Option ℕ) (g : ℕ)
    → loaded s found ≡ some s'
    → find_store s'.last_store g ≡ find_store s.last_store g
unfolding loaded
loaded-kept s s' none g h = ap (λ (t : Sweep). find_store t.last_store g) (sym (some_eq h))
loaded-kept s s' (some k) g h =
    let (w, q, r) = >>=-eq-some (set s.unused k false) _ h in
    ap (λ (t : Sweep). find_store t.last_store g) (sym (some_eq r))

pub visit-loaded :
    (name : ℕ) (p : Value) (g offset : ℕ) (s : Sweep)
    → visit_op name (load_inst p (negsuc g) offset) s ≡ loaded s (find_store s.last_store (suc g))
unfolding visit_op loaded
visit-loaded name p g offset s = elim (find_store s.last_store (suc g)) [
  | none ↦ refl
  | some n ↦ refl
]

-- A store that is not marked stays so, when its name is not given again.
pub visit_op-stays :
    (name : ℕ) (op : Op) (s s' : Sweep) (n : ℕ)
    → visit_op name op s ≡ some s'
    → (n == name) ≡ false
    → s.unused.entry n ≡ false
    → s'.unused.entry n ≡ false
unfolding visit_op
visit_op-stays name (store_inst p v (negsuc g) offset) s s' n h b e =
    let (w, q, r) = >>=-eq-some (set s.unused name true) _ h in
    let f : w.entry n ≡ s.unused.entry n = rw b at (set_entry s.unused w name n true q) in
    ap (λ (t : Sweep). t.unused.entry n) (sym (some_eq r)) ∙ f ∙ e
visit_op-stays name (load_inst p (negsuc g) offset) s s' n h b e =
    loaded-stays s s' n (find_store s.last_store (suc g)) (sym (visit-loaded name p g offset s) ∙ h)
      e
visit_op-stays name (call_inst f vs) s s' n h b e =
    let (w, q, r) = >>=-eq-some (keep_all s.last_store s.unused) _ h in
    ap (λ (t : Sweep). t.unused.entry n) (sym (some_eq r))
    ∙ keep_all-clears s.last_store s.unused w n q e
visit_op-stays name _ s s' n h b e = ap (λ (t : Sweep). t.unused.entry n) (sym (some_eq h)) ∙ e
