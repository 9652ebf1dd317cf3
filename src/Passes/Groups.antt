-- ===== src/Passes/Groups.antt =====
-- The groups that `RefineAliasing` (jitir.tmpl.hpp) gives to loads and stores.

use metajit_cpp.Types.{type_size}
use metajit_cpp.Ir.{Value, Block}
use metajit_cpp.Word.Signed.{ℤ}
use metajit_cpp.Aliasing.{same_group}
use metajit_cpp.Passes.Refine.{Access, Refine, start, apply_all, visit_blocks}
use metajit_cpp.Base.{
  sym, ◌∙◌, ap, inl, inr, ℕ, ◌+◌, ◌%◌, ◌≤◌, Bool, true, false, List, some, ◌≡◌, ap, ◌∙◌, ◌⊎◌, inl,
  inr, get_elem?,
}
use metajit_cpp.Passes.Exact.{apply_all-preserves, apply_all-Holds, apply_all-groups}
use metajit_cpp.Passes.Collected.{
  Placed, PlacedIn, AllPlaced, visit_blocks-Collected, start-Collected,
}
use metajit_cpp.Passes.Apart.{valid_and_differ, apart_of}

module _ (same : Value → Value → Bool) (same-eq : (x y : Value) → same x y ≡ true → x ≡ y) where
  -- If RefineAliasing visits the blocks of a section, two pointers that compare equal are one
  -- value, and it then gives a load and a store of one aliasing group different groups, where the
  -- offsets of both are multiples of the sizes of their types, then both have the same base
  -- pointer and their bytes do not overlap.
  pub refined_groups_disjoint :
      (blocks : List Block) (r : Refine) (i j n m : ℕ) (u v : Access) (x y : ℤ)
      → visit_blocks same blocks start ≡ some r
      → get_elem? r.loads i ≡ some u
      → get_elem? r.stores j ≡ some v
      → get_elem? (apply_all r.loads r).0 i ≡ some (n, x)
      → get_elem? (apply_all r.stores (apply_all r.loads r).1).0 j ≡ some (m, y)
      → u.group ≡ v.group
      → same_group x y ≡ false
      → u.offset % type_size u.ty ≡ 0
      → v.offset % type_size v.ty ≡ 0
      → (u.ptr ≡ v.ptr)
        × ((u.offset + type_size u.ty ≤ v.offset) ⊎ (v.offset + type_size v.ty ≤ u.offset))
  unfolding AllPlaced PlacedIn
  refined_groups_disjoint blocks r i j n m u v x y h pu pv qx qy g d au av =
      let c = visit_blocks-Collected same same-eq blocks start r h (start-Collected same same-eq) in
      let r1 = (apply_all r.loads r).1 in
      let r2 = (apply_all r.stores r1).1 in
      let hu =
        apply_all-preserves r.stores r1 u.group u.offset x
          (apply_all-Holds r.loads r i u n x pu qx) in
      let hv = apply_all-Holds r.stores r1 j v m y pv qy in
      let k : r2.groups ≡ r.groups = apply_all-groups r.stores r1 ∙ apply_all-groups r.loads r in
      let pu' : Placed (c.firsts v.group) (r2.groups u.group) u = rw (k, sym g) (c.loads i u pu) in
      let pv' : Placed (c.firsts v.group) (r2.groups v.group) v = rw k (c.stores j v pv) in
      apart_of r2 u v x y (c.firsts v.group) hu hv g d au av pu' pv'

  -- If RefineAliasing visits the blocks of a section, two pointers that compare equal are one
  -- value, and it then gives a load and a store of one aliasing group different groups, then the
  -- offset of the load or the offset of the store is a multiple of the size of its type.
  pub one_offset_aligned :
      (blocks : List Block) (r : Refine) (i j n m : ℕ) (u v : Access) (x y : ℤ)
      → visit_blocks same blocks start ≡ some r
      → get_elem? r.loads i ≡ some u
      → get_elem? r.stores j ≡ some v
      → get_elem? (apply_all r.loads r).0 i ≡ some (n, x)
      → get_elem? (apply_all r.stores (apply_all r.loads r).1).0 j ≡ some (m, y)
      → u.group ≡ v.group
      → same_group x y ≡ false
      → (u.offset % type_size u.ty ≡ 0) ⊎ (v.offset % type_size v.ty ≡ 0)
  unfolding AllPlaced PlacedIn Placed
  one_offset_aligned blocks r i j n m u v x y h pu pv qx qy g d =
      let c = visit_blocks-Collected same same-eq blocks start r h (start-Collected same same-eq) in
      let r1 = (apply_all r.loads r).1 in
      let r2 = (apply_all r.stores r1).1 in
      let hu =
        apply_all-preserves r.stores r1 u.group u.offset x
          (apply_all-Holds r.loads r i u n x pu qx) in
      let hv = apply_all-Holds r.stores r1 j v m y pv qy in
      let k : r2.groups ≡ r.groups = apply_all-groups r.stores r1 ∙ apply_all-groups r.loads r in
      let (vu, vv, differ) = valid_and_differ r2 u v x y hu hv g d in
      let (_, _, a) = c.loads i u pu (rw (sym k) vu) in
      let (_, _, b) = c.stores j v pv (rw (sym k) vv) in
      elim a [
        | inr e ↦ inl e
        | inl e ↦ elim b [ inr f ↦ inr f | inl f ↦ absurd (differ (e ∙ ap c.firsts g ∙ sym f)) ]
      ]
