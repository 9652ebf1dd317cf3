-- ===== src/Folding/Pointers.antt =====
-- `fold_add_ptr`, `fold_load` and `fold_store` of `Builder` (jitir.tmpl.hpp): the addresses.
use mathlib.Core.Path.{subst}
use metajit_cpp.Types.{IrType}
use metajit_cpp.Ir.Checks.{binary_checks, binary_type, same_type→eq}
use metajit_cpp.Interpreter.Eval as IE
use metajit_cpp.Soundness.Operators.{masked_self}
use metajit_cpp.Folding.{Node, konst, binary, node_type, checked, build_const}
use metajit_cpp.Folding.Checked.{checked-binary, binary-checked}
use metajit_cpp.Folding.Numbers.{number, Folds-to}
use metajit_cpp.Folding.Operands.{Fits, number-Fits}
use metajit_cpp.Folding.ConstProp.{build_const-checked, build_const-type, number-build_const}
use metajit_cpp.Base.{
  ℕ, Bool, true, Option, none, some, ◌≡◌, refl, sym, ap, ap₂, ◌∙◌, some_eq, ◌==◌, ==→eq,
}
use metajit_cpp.Folding.Rules.{konst_number}
use metajit_cpp.Base.{>>=-eq-some}
use metajit_cpp.Types.{int64, ptr, type_width}
use metajit_cpp.Ir.{add_ptr_inst}
use metajit_cpp.Word.Ops.{add64}
use metajit_cpp.Word.Signed.{ℤ}
use metajit_cpp.Interpreter as I
use metajit_cpp.Folding.{as_konst}
use metajit_cpp.Folding.Cases.{when_some_cases, if_cases}
use metajit_cpp.Folding.Checked.{both_true}
use metajit_cpp.Folding.Numbers.{unpoisoned}
use metajit_cpp.Folding.Arith.{as_add_ptr_const, fold_add_ptr}
use metajit_cpp.Folding.Effects.{Effect, load, store, fold_load, fold_store}
use metajit_cpp.Folding.ConstProp.{view_number}
use metajit_cpp.Folding.Good.{kept}
use metajit_cpp.Base.{◌<◌, ◌^◌, arith, ◌>>=◌, >>=-eq-some}

as_add_ptr_const-eq :
    (a x : Node) (k : ℕ)
    → as_add_ptr_const a ≡ some (x, k)
    → (t : IrType) × (a ≡ binary add_ptr_inst x (konst t k))
unfolding as_add_ptr_const
as_add_ptr_const-eq (binary add_ptr_inst y (konst t m)) x k h =
    let e : (y, m) ≡ (x, k) = some_eq h in
    (t, ap (λ (p : Node × ℕ). binary add_ptr_inst p.0 (konst t p.1)) e)
as_add_ptr_const-eq _ x k h = cc

int64-bound : (v : ℕ) → Fits int64 v → v < 2 ^ 64
unfolding type_width
int64-bound v h = h

ptr-bound : (v : ℕ) → Fits ptr v → v < 2 ^ 64
unfolding type_width
ptr-bound v h = h

bound-ptr : (v : ℕ) → v < 2 ^ 64 → Fits ptr v
unfolding type_width
bound-ptr v h = h

bound-int64 : (v : ℕ) → v < 2 ^ 64 → Fits int64 v
unfolding type_width
bound-int64 v h = h

add64-bound : (x y : ℕ) → add64 x y < 2 ^ 64
unfolding add64
add64-bound x y = omega arith

add64_assoc : (x k v : ℕ) → add64 (add64 x k) v ≡ add64 x (add64 k v)
unfolding add64
add64_assoc x k v = omega arith

add64_shift : (x k o : ℕ) → add64 (add64 x k) o ≡ add64 x (add64 o k)
unfolding add64
add64_shift x k o = omega arith

add64_none : (x : ℕ) → x < 2 ^ 64 → add64 x 0 ≡ x
unfolding add64
add64_none x h = omega arith

module _ (floats : IE.FloatUnit) (leaves : ℕ → IrType → Option ℕ)
    (leaves-Fit : (n : ℕ) (t : IrType) (v : ℕ) → leaves n t ≡ some v → Fits t v) where
  ptr_types :
      (p o : Node)
      → checked (binary add_ptr_inst p o) ≡ true
      → (node_type p ≡ ptr) × (node_type o ≡ int64)
  unfolding binary_checks
  ptr_types p o c =
      let (x, y) = both_true (checked-binary add_ptr_inst p o c).of_types in
      (same_type→eq _ _ x, same_type→eq _ _ y)

  ptr_applied :
      (p o : Node) (x y : ℕ)
      → checked (binary add_ptr_inst p o) ≡ true
      → number floats leaves p ≡ some x
      → number floats leaves o ≡ some y
      → number floats leaves (binary add_ptr_inst p o) ≡ some (add64 x y)
  unfolding number IE.eval_binary I.add I.propagating_binop I.constant unpoisoned
  ptr_applied p o x y c e f =
      let j = checked-binary add_ptr_inst p o c in
      let (tp, to) = ptr_types p o c in
      let g : Fits ptr x = rw tp at (number-Fits floats leaves leaves-Fit p x j.left e) in
      let h : Fits int64 y = rw to at (number-Fits floats leaves leaves-Fit o y j.right f) in
      rw (e, f, tp, to, masked_self ptr x g, masked_self int64 y h)
        (ap some (masked_self ptr (add64 x y) (bound-ptr _ (add64-bound x y))))

  ptr_operands :
      (p o : Node) (v : ℕ)
      → checked (binary add_ptr_inst p o) ≡ true
      → number floats leaves (binary add_ptr_inst p o) ≡ some v
      → (x : ℕ) × (y : ℕ) × (number floats leaves p ≡ some x)
        × (number floats leaves o ≡ some y)
        × (v ≡ add64 x y)
  unfolding number
  ptr_operands p o v c e =
      let (x, ex, e1) = >>=-eq-some (number floats leaves p) _ e in
      let (y, ey, e2) = >>=-eq-some (number floats leaves o) _ e1 in
      (x, y, ex, ey, some_eq (sym e ∙ ptr_applied p o x y c ex ey))

  -- A pointer at a constant offset, and its base.
  offset_number :
      (a x : Node) (k v : ℕ)
      → as_add_ptr_const a ≡ some (x, k)
      → checked a ≡ true
      → number floats leaves a ≡ some v
      → (w : ℕ) × (number floats leaves x ≡ some w) × (v ≡ add64 w k)
  offset_number a x k v h c e =
      let (t, q) = as_add_ptr_const-eq a x k h in
      let d = subst (λ i. checked i ≡ true) q c in
      let (w, y, ew, ey, r) =
        ptr_operands x (konst t k) v d (ap (number floats leaves) (sym q) ∙ e) in
      let s : y ≡ k = some_eq (
        sym ey
        ∙ konst_number floats leaves leaves-Fit t k
            (checked-binary add_ptr_inst x (konst t k) d).right) in
      (w, ew, r ∙ ap (add64 w) s)

  -- For operands that pass the checks of AddPtr, and values that no fold looks into that hold
  -- numbers of their types, `fold_add_ptr` gives a value that may stand for the instruction: it
  -- passes the checks, is a pointer, and holds each address that the interpreter gives the
  -- instruction.
  pub fold_add_ptr-Folds-to :
      (same : Node → Node → Bool) (p o : Node)
      → checked (binary add_ptr_inst p o) ≡ true
      → Folds-to floats leaves (binary add_ptr_inst p o) (fold_add_ptr same p o)
  unfolding fold_add_ptr node_type binary_type binary_checks
  fold_add_ptr-Folds-to same p o c =
      let N = binary add_ptr_inst p o in
      let P : Option Node → Type 0 = Folds-to floats leaves N in
      let j = checked-binary add_ptr_inst p o c in
      let (tp, to) = ptr_types p o c in
      when_some_cases P (as_konst o) _ _
        (λ v f.
          let no = view_number floats leaves o v j.right f in
          if_cases P (v == 0) _ _
            (λ q. (
              p,
              refl,
              record {
                typed = tp;
                checks = j.left;
                same_number = λ w e.
                    let (x, y, ex, ey, r) = ptr_operands p o w c e in
                    let z : y ≡ 0 = some_eq (sym ey ∙ no) ∙ ==→eq _ _ q in
                    let g : Fits ptr x =
                      rw tp at (number-Fits floats leaves leaves-Fit p x j.left ex) in
                    ex ∙ ap some (sym (r ∙ ap (add64 x) z ∙ add64_none x (ptr-bound x g)));
              },
            ))
            (λ _.
              when_some_cases P (as_add_ptr_const p) _ _
                (λ q h.
                  let y = build_const int64 (add64 q.1 v) in
                  let (t, e) = as_add_ptr_const-eq p q.0 q.1 h in
                  let d = subst (λ i. checked i ≡ true) e j.left in
                  let k = checked-binary add_ptr_inst q.0 (konst t q.1) d in
                  let (tq, tk) = ptr_types q.0 (konst t q.1) d in
                  let ok : checked (binary add_ptr_inst q.0 y) ≡ true =
                    binary-checked add_ptr_inst q.0 y record {
                      of_types =
                          subst (λ u. binary_checks add_ptr_inst (node_type q.0) u ≡ true)
                            (tk ∙ sym (build_const-type int64 (add64 q.1 v))) k.of_types;
                      left = k.left;
                      right = build_const-checked int64 (add64 q.1 v);
                    } in
                  (
                    binary add_ptr_inst q.0 y,
                    refl,
                    record {
                      typed = refl;
                      checks = ok;
                      same_number = λ w f.
                          let (x, z, ex, ez, r) = ptr_operands p o w c f in
                          let (b, eb, s) = offset_number p q.0 q.1 x h j.left ex in
                          let m : z ≡ v = some_eq (sym ez ∙ no) in
                          ptr_applied q.0 y b (add64 q.1 v) ok eb (
                            number-build_const floats leaves int64 (add64 q.1 v)
                            ∙ ap some (masked_self int64 _ (bound-int64 _ (add64-bound q.1 v))))
                          ∙ ap some (sym (r ∙ ap₂ add64 s m ∙ add64_assoc b q.1 v));
                    },
                  ))
                (kept floats leaves N c)))
        (kept floats leaves N c)

  -- The address that an instruction accesses, where its pointer is a number.
  unfoldable pub address : Effect → Option ℕ
  unfolding number add64
  address (load p t flags aliasing offset) = do x ← number floats leaves p; some (add64 x offset)
  address (store p value aliasing offset) = do x ← number floats leaves p; some (add64 x offset)
  address _ = none

  moved :
      (p x : Node) (k offset v : ℕ)
      → as_add_ptr_const p ≡ some (x, k)
      → checked p ≡ true
      → number floats leaves p ≡ some v
      → (number floats leaves x >>= λ w. some (add64 w (add64 offset k))) ≡ some (add64 v offset)
  moved p x k offset v h c e =
      let (w, ew, s) = offset_number p x k v h c e in
      rw ew (ap some (sym (ap (λ i. add64 i offset) s ∙ add64_shift w k offset)))

  -- If a checked pointer holds the number `v`, and the values that no fold looks into hold numbers
  -- of their types, then the instructions that `fold_load` and `fold_store` build access the
  -- address v + offset, modulo 2 ^ 64.
  pub fold_access-address :
      (p value : Node) (t : IrType) (flags : ℕ) (aliasing : ℤ) (offset v : ℕ)
      → checked p ≡ true
      → number floats leaves p ≡ some v
      → (address (fold_load p t flags aliasing offset) ≡ some (add64 v offset))
        × (address (fold_store p value aliasing offset) ≡ some (add64 v offset))
  unfolding address fold_load fold_store
  fold_access-address p value t flags aliasing offset v c e = (
    when_some_cases (λ i. address i ≡ some (add64 v offset)) (as_add_ptr_const p) _ _
        (λ q h. moved p q.0 q.1 offset v h c e) (rw e refl),
    when_some_cases (λ i. address i ≡ some (add64 v offset)) (as_add_ptr_const p) _ _
        (λ q h. moved p q.0 q.1 offset v h c e) (rw e refl),
  )
