-- ===== src/Passes/Apart.antt =====
-- Accesses at multiples of their size, for `RefineAliasing` (jitir.tmpl.hpp).

use native.Mathlib.Decide.{dec_lt}
use metajit_cpp.Types.{
  IrType, void, bool, int8, int16, int32, int64, float32, float64, ptr, type_size,
}
use metajit_cpp.Word.Signed.{ℤ, pos, negsuc}
use metajit_cpp.Aliasing.{same_group}
use metajit_cpp.Passes.Refine.{Access, Refine}
use metajit_cpp.Passes.Exact.{Holds, invalid, exact}
use metajit_cpp.Passes.Collected.{Placed}
use metajit_cpp.Base.{
  ℕ, ◌+◌, ◌%◌, ◌≤◌, true, false, some_eq, ◌≡◌, refl, sym, ap, ap₂, ◌<◌, ◌∙◌, ◌⊎◌, inl, inr, eq→==,
  arith,
}

pub same_group_refl : (x : ℤ) → same_group x x ≡ true
unfolding same_group
same_group_refl (pos n) = eq→== n n refl
same_group_refl (negsuc n) = eq→== n n refl

-- Two multiples of a size, if they differ, differ by the size.
pub multiples_apart :
    (t : IrType) (o p : ℕ)
    → o % type_size t ≡ 0
    → p % type_size t ≡ 0
    → (o ≡ p → ⊥)
    → (o + type_size t ≤ p) ⊎ (p + type_size t ≤ o)
unfolding type_size
multiples_apart t o p a b d = elim (dec_lt o p) [
  | yes h ↦ inl (step t o p a b h)
  | no h ↦ inr (step t p o b a (elim (dec_lt p o) [ yes k ↦ k | no k ↦ absurd (d (omega arith)) ]))
]
  where
    step :
        (t : IrType) (o p : ℕ)
        → o % type_size t ≡ 0
        → p % type_size t ≡ 0
        → o < p
        → o + type_size t ≤ p
    step void o p a b h = omega arith
    step bool o p a b h = omega arith
    step int8 o p a b h = omega arith
    step int16 o p a b h = omega arith
    step int32 o p a b h = omega arith
    step int64 o p a b h = omega arith
    step float32 o p a b h = omega arith
    step float64 o p a b h = omega arith
    step ptr o p a b h = omega arith

-- Two accesses of one group that get different groups: the group is valid, and their offsets differ.
pub valid_and_differ :
    (r : Refine) (u v : Access) (x y : ℤ)
    → Holds r u.group u.offset x
    → Holds r v.group v.offset y
    → u.group ≡ v.group
    → same_group x y ≡ false
    → ((r.groups u.group).is_invalid ≡ false)
      × ((r.groups v.group).is_invalid ≡ false)
      × (u.offset ≡ v.offset → ⊥)
valid_and_differ r u v x y (invalid a b) (invalid c e) g d =
    let f : x ≡ y = b ∙ ap pos g ∙ sym e in
    let k : same_group x x ≡ false = rw (sym f) at d in let l = same_group_refl x in cc
valid_and_differ r u v x y (invalid a b) (exact c e) g d =
    let f : (r.groups v.group).is_invalid ≡ true = rw g at a in cc
valid_and_differ r u v x y (exact a b) (invalid c e) g d =
    let f : (r.groups v.group).is_invalid ≡ false = rw g at a in cc
valid_and_differ r u v x y (exact a b) (exact c e) g d = (
  a,
  c,
  λ o.
      let f : x ≡ y = some_eq (sym b ∙ ap₂ r.exact_groups g o ∙ e) in
      let k : same_group x x ≡ false = rw (sym f) at d in let l = same_group_refl x in cc,
)

pub apart_of :
    (r : Refine) (u v : Access) (x y : ℤ) (first : ℕ)
    → Holds r u.group u.offset x
    → Holds r v.group v.offset y
    → u.group ≡ v.group
    → same_group x y ≡ false
    → u.offset % type_size u.ty ≡ 0
    → v.offset % type_size v.ty ≡ 0
    → Placed first (r.groups u.group) u
    → Placed first (r.groups v.group) v
    → (u.ptr ≡ v.ptr)
      × ((u.offset + type_size u.ty ≤ v.offset) ⊎ (v.offset + type_size v.ty ≤ u.offset))
unfolding Placed
apart_of r u v x y first hu hv g d au av su sv =
    let (a, c, differ) = valid_and_differ r u v x y hu hv g d in
    let (bu, tu, _) = su a in
    let (bv, tv, _) = sv c in
    let p : u.ptr ≡ v.ptr = some_eq (sym bu ∙ ap (λ k. (r.groups k).base) g ∙ bv) in
    let t : u.ty ≡ v.ty = sym tu ∙ ap (λ k. (r.groups k).ty) g ∙ tv in
    (p, rw t (multiples_apart v.ty u.offset v.offset (rw t at au) av differ))
