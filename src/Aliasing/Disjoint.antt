-- ===== src/Aliasing/Disjoint.antt =====
-- A load and a store of one aliasing group that `could_alias` tells apart, in the interpreter.

use metajit_cpp.Types.{type_size}
use metajit_cpp.Ir.{Value, type_of, NameMap}
use metajit_cpp.Aliasing.{Load, Store, could_alias, same_group, interval, intersects}
use metajit_cpp.Memory.{Memory}
use metajit_cpp.Interpreter as I
use metajit_cpp.Interpreter.Eval as IE
use metajit_cpp.Interpreter.Machine as M
use metajit_cpp.Interpreter.Storage.{load-store_other}
use metajit_cpp.Word.Ops.{add64}
use metajit_cpp.Base.{
  ℕ, ◌+◌, ◌^◌, ◌<◌, ◌≤◌, Bool, true, false, not, ◌&&◌, some, ◌≡◌, refl, sym, ap, ◌∙◌, ◌⊎◌, inl, inr,
  ltb, if◌then◌else◌, some_eq, arith,
}

-- The only way to `false` within a group.
apart :
    (g e s i : Bool)
    → g ≡ true
    → (if not g then false else if e then true else if not s then true else i) ≡ false
    → (s ≡ true) × (i ≡ false)
apart true false true i p h = (refl, h)
apart true false false i p h = cc
apart true true s i p h = cc
apart false e s i p h = cc

not_intersecting : (a b c d : ℕ) → (ltb c b && ltb a d) ≡ false → (b ≤ c) ⊎ (d ≤ a)
not_intersecting a b c d h = cases (ltb c b) refl h
  where
    cases : (k : Bool) → ltb c b ≡ k → (k && ltb a d) ≡ false → (b ≤ c) ⊎ (d ≤ a)
    cases true e f = inr (ground arith)
    cases false e f = inl (ground arith)

module _ (same : Value → Value → Bool) (identity : (u v : Value) → same u v ≡ true → u ≡ v)
    (run : NameMap I.Bits) (load : Load) (store : Store) (p q v : I.Bits) where
  -- If `could_alias` tells a load and a store of the same aliasing group apart, where two pointers
  -- that compare equal are one value, the bytes of neither access pass the end of the address
  -- space, and the value stored has the type of the store's operand, then a store that the
  -- interpreter performs leaves what the load gives as it was.
  pub could_alias-load :
      (m m' : Memory)
      → same_group load.aliasing store.aliasing ≡ true
      → could_alias same load store ≡ false
      → IE.at_value run load.ptr ≡ some p
      → IE.at_value run store.ptr ≡ some q
      → v.ty ≡ type_of store.value
      → p.value + load.offset + type_size load.ty < 2 ^ 64
      → q.value + store.offset + type_size v.ty < 2 ^ 64
      → M.store v m (M.address q store.offset) ≡ some m'
      → M.load m' (M.address p load.offset) load.ty ≡ M.load m (M.address p load.offset) load.ty
  unfolding could_alias interval intersects M.address add64
  could_alias-load m m' g h hp hq t lp lq s =
      let (e, i) = apart _ _ _ _ g h in
      let ptrs : load.ptr ≡ store.ptr = identity load.ptr store.ptr e in
      let one : p ≡ q = some_eq (sym hp ∙ ap (IE.at_value run) ptrs ∙ hq) in
      let at : p.value ≡ q.value = ap (λ (z : I.Bits). z.value) one in
      let size : type_size v.ty ≡ type_size (type_of store.value) = ap type_size t in
      load-store_other v m m' (M.address q store.offset) (M.address p load.offset) load.ty
        (ranges at size (not_intersecting _ _ _ _ i)) s
    where
      ranges :
          p.value ≡ q.value
          → type_size v.ty ≡ type_size (type_of store.value)
          → (add64 load.offset (type_size load.ty) ≤ store.offset)
            ⊎ (add64 store.offset (type_size (type_of store.value)) ≤ load.offset)
          → (M.address p load.offset + type_size load.ty ≤ M.address q store.offset)
            ⊎ (M.address q store.offset + type_size v.ty ≤ M.address p load.offset)
      ranges e z (inl k) = inl (omega arith)
      ranges e z (inr k) = inr (omega arith)
