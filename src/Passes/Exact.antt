-- ===== src/Passes/Exact.antt =====
-- The groups that `Refine::apply` (jitir.tmpl.hpp) gives.
use mathlib.Core.Path.{subst}
use metajit_cpp.Word.Signed.{ℤ, pos}
use metajit_cpp.Passes.Refine.{Access, Refine, apply, apply_all}
use metajit_cpp.Base.{
  ℕ, zero, suc, Bool, true, false, ◌&&◌, ◌==◌, List, [], ◌∷◌, Option, none, some, some_eq,
  if◌then◌else◌, ◌≡◌, refl, ap, ◌∙◌, ◌⊎◌, inl, inr, get_elem?, eq→==, ==→eq, Bool-cases,
}

-- The group of `x` is not exact, or `x` is the exact group of the offset.
pub data Holds (r : Refine) (g offset : ℕ) (x : ℤ) : Type 0 where
  invalid : (r.groups g).is_invalid ≡ true → x ≡ pos g → Holds r g offset x
  exact : (r.groups g).is_invalid ≡ false → r.exact_groups g offset ≡ some x → Holds r g offset x

pub same_option : (o : Option ℤ) → (o ≡ none) ⊎ ((x : ℤ) × (o ≡ some x))
same_option none = inl refl
same_option (some x) = inr (x, refl)

pub apply-Holds :
    (r : Refine) (g offset : ℕ) → Holds (apply r g offset).1 g offset (apply r g offset).0
unfolding apply
apply-Holds r g offset = elim (Bool-cases (r.groups g).is_invalid) [
  | inl h ↦ rw h (invalid h refl)
  | inr h ↦ elim (same_option (r.exact_groups g offset)) [
    | inl e ↦ rw (h, e) (exact h (rw (eq→== g g refl, eq→== offset offset refl) refl))
    | inr (x, e) ↦ rw (h, e) (exact h e)
  ]
]

pub both_true : (x y : Bool) → (x && y) ≡ true → (x ≡ true) × (y ≡ true)
both_true true true h = (refl, refl)
both_true true false h = cc
both_true false y h = cc

-- A new entry hides no other.
pub other_entry :
    (m : ℕ → ℕ → Option ℤ) (g offset h o : ℕ) (x y : ℤ)
    → m g offset ≡ none
    → m h o ≡ some x
    → (if h == g && o == offset then some y else m h o) ≡ some x
other_entry m g offset h o x y e q = elim (Bool-cases (h == g && o == offset)) [
  | inl k ↦
      let (a, b) = both_true (h == g) (o == offset) k in
      let f : m h o ≡ none = rw (==→eq h g a, ==→eq o offset b) e in cc
  | inr k ↦ rw k q
]

pub apply-preserves :
    (r : Refine) (g offset h o : ℕ) (x : ℤ) → Holds r h o x → Holds (apply r g offset).1 h o x
unfolding apply
apply-preserves r g offset h o x (invalid a c) = elim (Bool-cases (r.groups g).is_invalid) [
  | inl b ↦ rw b (invalid a c)
  | inr b ↦ elim (same_option (r.exact_groups g offset)) [
    | inr (y, e) ↦ rw (b, e) (invalid a c)
    | inl e ↦ rw (b, e) (invalid a c)
  ]
]
apply-preserves r g offset h o x (exact a q) = elim (Bool-cases (r.groups g).is_invalid) [
  | inl b ↦ rw b (exact a q)
  | inr b ↦ elim (same_option (r.exact_groups g offset)) [
    | inr (y, e) ↦ rw (b, e) (exact a q)
    | inl e ↦ rw (b, e) (exact a (other_entry r.exact_groups g offset h o x _ e q))
  ]
]

pub apply_all-preserves :
    (us : List Access) (r : Refine) (h o : ℕ) (x : ℤ)
    → Holds r h o x
    → Holds (apply_all us r).1 h o x
unfolding apply_all
apply_all-preserves [] r h o x p = p
apply_all-preserves (a ∷ rest) r h o x p =
    apply_all-preserves rest (apply r a.group a.offset).1 h o x
      (apply-preserves r a.group a.offset h o x p)

-- What each access is given holds at the end.
pub apply_all-Holds :
    (us : List Access) (r : Refine) (i : ℕ) (u : Access) (n : ℕ) (x : ℤ)
    → get_elem? us i ≡ some u
    → get_elem? (apply_all us r).0 i ≡ some (n, x)
    → Holds (apply_all us r).1 u.group u.offset x
unfolding apply_all
apply_all-Holds [] r i u n x p q = cc
apply_all-Holds (a ∷ rest) r zero u n x p q =
    let e : a ≡ u = some_eq p in
    let f : (a.name, (apply r a.group a.offset).0) ≡ (n, x) = some_eq q in
    let y : (apply r a.group a.offset).0 ≡ x = ap (λ (t : ℕ × ℤ). t.1) f in
    let r1 = (apply r a.group a.offset).1 in
    subst (λ (w : Access). Holds (apply_all rest r1).1 w.group w.offset x) e
      (apply_all-preserves rest r1 a.group a.offset x
        (subst (Holds r1 a.group a.offset) y (apply-Holds r a.group a.offset)))
apply_all-Holds (a ∷ rest) r (suc i) u n x p q =
    apply_all-Holds rest (apply r a.group a.offset).1 i u n x p q

pub groups_kept : (r : Refine) (g offset : ℕ) → (apply r g offset).1.groups ≡ r.groups
unfolding apply
groups_kept r g offset = elim (Bool-cases (r.groups g).is_invalid) [
  | inl b ↦ rw b refl
  | inr b ↦ elim (same_option (r.exact_groups g offset)) [
    | inr (y, e) ↦ rw (b, e) refl
    | inl e ↦ rw (b, e) refl
  ]
]

pub apply_all-groups : (us : List Access) (r : Refine) → (apply_all us r).1.groups ≡ r.groups
unfolding apply_all
apply_all-groups [] r = refl
apply_all-groups (a ∷ rest) r =
    apply_all-groups rest (apply r a.group a.offset).1 ∙ groups_kept r a.group a.offset
