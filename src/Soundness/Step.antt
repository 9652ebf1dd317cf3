-- ===== src/Soundness/Step.antt =====
-- A step of the interpreter before the end of a block, against the known bits.
use mathlib.Core.Path.{subst}
use mathlib.Core.Bool.{and-eq-true_iff}
use metajit_cpp.Types.{IrType, void, ptr, same_type, type_width}
use metajit_cpp.Memory.{Memory}
use metajit_cpp.Ir.{
  Op, freeze_inst, promote_inst, assume_const_inst, select_inst, resize_u_inst, resize_s_inst,
  resize_x_inst, ptr_to_int_inst, int_to_float_s_inst, float_to_int_s_inst, binary, load_inst,
  store_inst, alloca_inst, call_inst, branch_inst, jump_inst, exit_inst, comment_inst, Inst, Block,
  NameMap, set, args_of, is_terminator,
}
use metajit_cpp.Ir.Checks.{op_checks, same_type→eq}
use metajit_cpp.Ir.Scopes.{is_comment}
use metajit_cpp.KnownBits as K
use metajit_cpp.KnownBits.Eval as KE
use metajit_cpp.Interpreter as I
use metajit_cpp.Interpreter.Eval as IE
use metajit_cpp.Interpreter.Machine.{
  Machine, Host, Event, none_event, no_bits, assign, load, store, address, step_inst,
}
use metajit_cpp.Soundness.Relation.{Approximates}
use metajit_cpp.Soundness.Typing.{IsOf, constant-IsOf}
use metajit_cpp.Soundness.Eval.{AllTracked, tracks, eval-IsOf, eval_sound, unknown-Approximates}
use metajit_cpp.Base.{
  ℕ, Bool, true, false, not, ◌&&◌, List, ◌∷◌, ◌++◌, [], Option, some, none, ◌≡◌, refl, sym, ◌>>=◌,
  >>=-eq-some, some_eq, if◌then◌else◌, ltb, arith,
}

-- What a step does: it gives the instruction a value that its known bits approximate, and moves on.
pub record Gives (values : NameMap K.Bits) (inst : Inst) (op : Op) (rest : List Inst)
    (before : NameMap I.Bits) (s : Machine × Event) : Type 0 where
  pub moved : s.0.insts ≡ rest
  pub quiet : s.1 ≡ none_event
  pub result : I.Bits
  pub stored : set before inst.name result ≡ some s.0.values
  pub typed : IsOf inst.ty result
  pub approximated : (k : K.Bits) → KE.eval values inst.ty op ≡ some k → Approximates k result

module _ (inst : Inst) (rest : List Inst) where
  pub assigned :
      (m : Machine) (b : I.Bits) (s : Machine × Event)
      → assign inst rest m b ≡ some s
      → (set m.values inst.name b ≡ some s.0.values) × (s.0.insts ≡ rest) × (s.1 ≡ none_event)
  unfolding assign
  assigned m b s h =
      let (after, f, g) = >>=-eq-some (set m.values inst.name b) _ h in
      subst
        (λ (z : Machine × Event).
          (set m.values inst.name b ≡ some z.0.values) × (z.0.insts ≡ rest) × (z.1 ≡ none_event))
        (some_eq g) (f, refl, refl)

if_some_of {ℓ} :
    {A : Type ℓ} (c : Bool) (o : Option A) {y : A} → (if c then o else none) ≡ some y → o ≡ some y
if_some_of true o h = h
if_some_of false o h = cc

load-IsOf : (m : Memory) (p : ℕ) (t : IrType) (b : I.Bits) → load m p t ≡ some b → IsOf t b
unfolding load
load-IsOf m p t b h = subst (IsOf t) (some_eq (if_some_of _ (some _) h)) (constant-IsOf t _)

no_bits-IsOf : (t : IrType) → same_type t void ≡ true → IsOf t no_bits
no_bits-IsOf t h =
    subst (λ u. IsOf u no_bits) (sym (same_type→eq t void h))
      (record { ty = refl; range = unfold type_width in omega arith })

module _ (host : Host) (blocks : List Block) (values : NameMap K.Bits) (inst : Inst)
    (rest : List Inst) (m : Machine) (s : Machine × Event) where
  gives :
      (op : Op) (m' : Machine) (b : I.Bits)
      → m'.values ≡ m.values
      → IsOf inst.ty b
      → ((k : K.Bits) → KE.eval values inst.ty op ≡ some k → Approximates k b)
      → assign inst rest m' b ≡ some s
      → Gives values inst op rest m.values s
  gives op m' b v t a h =
      let (f, g, e) = assigned inst rest m' b s h in
      record { moved = g; quiet = e; result = b; stored = rw (← v) f; typed = t; approximated = a }

  unknown :
      (b : I.Bits)
      → IsOf inst.ty b
      → (k : K.Bits) → some (K.known inst.ty 0 0) ≡ some k
      → Approximates k b
  unknown b t k h =
      subst (λ (z : K.Bits). Approximates z b) (some_eq h) (unknown-Approximates inst.ty b t)

  computed :
      (op : Op)
      → op_checks inst.ty op ≡ true
      → tracks op ≡ true
      → AllTracked values m.values (args_of op)
      → (IE.eval host.floats m.values inst.ty op >>= λ b. assign inst rest m b) ≡ some s
      → Gives values inst op rest m.values s
  computed op c w p h =
      let (b, e, f) = >>=-eq-some (IE.eval host.floats m.values inst.ty op) _ h in
      gives op m b refl (eval-IsOf host.floats values m.values inst.ty b op c p e)
        (λ k g. eval_sound host.floats values m.values inst.ty b op k c w p g e) f

  pub step_inst-Gives :
      (op : Op)
      → op_checks inst.ty op ≡ true
      → tracks op ≡ true
      → is_terminator op ≡ false
      → is_comment op ≡ false
      → AllTracked values m.values (args_of op)
      → step_inst host blocks inst op rest m ≡ some s
      → Gives values inst op rest m.values s
  unfolding step_inst is_terminator op_checks KE.eval is_comment
  step_inst-Gives (load_inst p g o) c w n q t h =
      let (pb, _, h1) = >>=-eq-some (IE.at_value m.values p) _ h in
      let (b, e, h2) =
        >>=-eq-some (if not pb.is_poison then load m.memory (address pb o) inst.ty else none) _
          h1 in
      let ty = load-IsOf m.memory (address pb o) inst.ty b (if_some_of (not pb.is_poison) _ e) in
      gives (load_inst p g o) m b refl ty (unknown b ty) h2
  step_inst-Gives (store_inst p v g o) c w n q t h =
      let (pb, _, h1) = >>=-eq-some (IE.at_value m.values p) _ h in
      let (vb, _, h2) = >>=-eq-some (IE.at_value m.values v) _ h1 in
      let (memory, e, h3) =
        >>=-eq-some (if not pb.is_poison then store vb m.memory (address pb o) else none) _ h2 in
      let (c0, _) = (and-eq-true_iff _ _).0 c in
      let ty = no_bits-IsOf inst.ty c0 in
      gives (store_inst p v g o) (record m { memory = memory }) no_bits refl ty (unknown no_bits ty)
        h3
  step_inst-Gives (alloca_inst size) c w n q t h =
      let (sb, _, h1) = >>=-eq-some (IE.at_value m.values size) _ h in
      let (c0, _) = (and-eq-true_iff _ _).0 c in
      let address = host.new_storage m.alloca_storage sb.value in
      let ty : IsOf inst.ty (I.constant ptr address) =
        subst (λ u. IsOf u (I.constant ptr address)) (sym (same_type→eq inst.ty ptr c0))
          (constant-IsOf ptr address) in
      gives (alloca_inst size) (record m { alloca_storage = m.alloca_storage ++ (address ∷ []) }) _
        refl ty (unknown _ ty) (if_some_of (not sb.is_poison && ltb 0 sb.value) _ h1)
  step_inst-Gives (jump_inst b vs) c w n q t h = cc
  step_inst-Gives (branch_inst z x y) c w n q t h = cc
  step_inst-Gives exit_inst c w n q t h = cc
  step_inst-Gives comment_inst c w n q t h = cc
  step_inst-Gives (freeze_inst a) c w n q t h = computed (freeze_inst a) c w t h
  step_inst-Gives (promote_inst a) c w n q t h = computed (promote_inst a) c w t h
  step_inst-Gives (assume_const_inst a) c w n q t h = computed (assume_const_inst a) c w t h
  step_inst-Gives (select_inst z a b) c w n q t h = computed (select_inst z a b) c w t h
  step_inst-Gives (resize_u_inst a) c w n q t h = computed (resize_u_inst a) c w t h
  step_inst-Gives (resize_s_inst a) c w n q t h = computed (resize_s_inst a) c w t h
  step_inst-Gives (resize_x_inst a) c w n q t h = computed (resize_x_inst a) c w t h
  step_inst-Gives (ptr_to_int_inst a) c w n q t h = computed (ptr_to_int_inst a) c w t h
  step_inst-Gives (int_to_float_s_inst a) c w n q t h = computed (int_to_float_s_inst a) c w t h
  step_inst-Gives (float_to_int_s_inst a) c w n q t h = computed (float_to_int_s_inst a) c w t h
  step_inst-Gives (binary o a b) c w n q t h = computed (binary o a b) c w t h
  step_inst-Gives (call_inst f vs) c w n q t h = computed (call_inst f vs) c w t h
