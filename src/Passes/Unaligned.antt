-- ===== src/Passes/Unaligned.antt =====
-- `RefineAliasing` of jitir.tmpl.hpp on a group whose first access is not aligned.
use metajit_cpp.Types.{int64, void, type_size, same_type}
use metajit_cpp.Ir.{Value, type_of, load_inst, store_inst, Block}
use metajit_cpp.Word.Ops.{mod64, add64}
use metajit_cpp.Word.Signed.{ℤ, pos, negsuc}
use metajit_cpp.Aliasing.{could_alias, same_group, interval, intersects}
use metajit_cpp.Passes.Refine.{
  start, set_group, apply, apply_all, access, visit_op, visit, visit_insts, visit_blocks,
  refine_aliasing, set_aliasing, set_all, set_blocks, regroup, lookup, decrement,
}
use metajit_cpp.Base.{ℕ, ◌≤◌, ◌<◌, Bool, true, false, ◌==◌, List, [], ◌∷◌, some, ◌≡◌, refl, arith}

-- A load at an offset, and a store at offset 0.
abbrev pub load_and_store : Value → Value → ℤ → ℤ → ℕ → List Block
load_and_store p v g h offset =
    record {
      args = [];
      insts =
          record { name = 0; ty = int64; op = load_inst p g offset }
          ∷ record { name = 1; ty = void; op = store_inst p v h 0 }
          ∷ [];
    }
    ∷ []

not_equal : (o : ℕ) → 1 ≤ o → (0 == o) ≡ false
not_equal o h = ground arith

module _ (same : Value → Value → Bool) (p v : Value) (offset : ℕ) where
  -- For a section that loads an Int64 at an offset from 1 to 7 from a pointer, then stores an
  -- Int64 at offset 0 of that pointer in the same group, RefineAliasing gives the load and the
  -- store exact groups of their own; could_alias then says that they do not alias, and their
  -- intervals intersect.
  pub refine_aliasing-splits_overlap :
      same p p ≡ true
      → type_of v ≡ int64
      → 1 ≤ offset
      → offset < 8
      → (refine_aliasing same (load_and_store p v (pos 0) (pos 0) offset)
          ≡ some (load_and_store p v (negsuc 0) (negsuc 1) offset))
        × (could_alias same
              record { ptr = p; ty = int64; aliasing = negsuc 0; offset = offset }
              record { ptr = p; value = v; aliasing = negsuc 1; offset = 0 }
            ≡ false)
        × (intersects (interval offset int64) (interval 0 int64) ≡ true)
  unfolding refine_aliasing visit_blocks visit_insts visit visit_op access set_group apply apply_all
      set_blocks set_all set_aliasing regroup lookup decrement start same_type mod64 type_size
      could_alias same_group interval intersects add64
  refine_aliasing-splits_overlap s t l h = (rw (s, t, not_equal offset l) refl, refl, ground arith)
